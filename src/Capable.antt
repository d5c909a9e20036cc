-- ===== src/Capable.antt =====
-- The check of ioctls for capable(), gtf/test_state.c. `fn` is printed only.
use driver_optimizer.Prelude.{
  ℕ, zero, suc, ◌≡◌, refl, Bool, true, false, ◌||◌, List, [], ◌∷◌, ℤ, pos, negsuc, ◌==ℤ◌, minus_one,
  if◌then◌else◌,
}
use driver_optimizer.Action.{
  Action, assertion, stop, ◌>>=◌, ◌>>◌, pure, get, modify, tfassert, zoom,
}
use driver_optimizer.State.{CallState, not_called, called_ok, called_failed, call_is, Kernel}
use driver_optimizer.DriverState.{set_call_state}

-- The two static variables of the check.
pub record CapableState : Type 0 where
  pub ioctl_capable_param : ℤ
  pub ioctl_capable_retval : CallState

-- #define MAX_IOCTL_CHECKS 4
abbrev pub max_ioctl_checks : ℕ
max_ioctl_checks = 4

abbrev pub write_capable_retval : CallState → CapableState → CapableState
write_capable_retval retval c = record c { ioctl_capable_retval = retval }

-- -retval, for a constant of the kernel
abbrev pub negated : ℕ → ℤ
negated zero = pos zero
negated (suc n) = negsuc n

-- the loop of capable_given_cmd over the two arrays, here one of pairs
unfoldable pub given_in : ℤ → List (ℤ × ℤ) → ℤ
given_in cmd [] = minus_one
given_in cmd ((required, param) ∷ rest) = if cmd ==ℤ required then param else given_in cmd rest

-- ioctl_req_cmd and ioctl_req_capable_param
abbrev pub ioctl_req : Kernel → List (ℤ × ℤ)
ioctl_req k =
    (k.siocgmiireg, k.cap_net_admin)
    ∷ (k.siocsmiireg, k.cap_net_admin)
    ∷ (k.siocdevprivate_2, k.cap_net_admin)
    ∷ (k.siocsifaddr, k.cap_net_admin)
    ∷ []

unfoldable pub capable_given_cmd : Kernel → ℤ → ℤ
unfolding given_in
capable_given_cmd k cmd = given_in cmd (ioctl_req k)

-- what an ioctl that needs a capability must have done
abbrev pub checked : ℤ → Action CapableState Unit
checked capable_param = do
  c ← get
  tfassert
      (call_is c.ioctl_capable_retval called_ok || call_is c.ioctl_capable_retval called_failed)
  tfassert (c.ioctl_capable_param ==ℤ capable_param)

unfoldable pub ioctl_called_capable : Kernel → ℤ → ℤ → ℤ → Action CapableState Unit
unfolding capable_given_cmd
ioctl_called_capable k prepost retval cmd =
    if prepost ==ℤ pos 0
    then pure tt
    else if prepost ==ℤ pos 1
    then (do
      let capable_param = capable_given_cmd k cmd
      if capable_param ==ℤ minus_one then pure tt else checked capable_param
      c ← get
      if call_is c.ioctl_capable_retval called_failed
          then tfassert (retval ==ℤ negated k.eperm)
          else pure tt)
    else tfassert false

unfoldable pub call_capable : ℤ → Bool → ℤ → Action CapableState Unit
unfolding set_call_state
call_capable prepost retval capability =
    if prepost ==ℤ pos 0
    then (do
      modify (λ c. record c { ioctl_capable_param = pos 0 })
      zoom (λ c. c.ioctl_capable_retval) write_capable_retval (set_call_state not_called))
    else if prepost ==ℤ pos 1
    then (do
      modify (λ c. record c { ioctl_capable_param = capability })
      zoom (λ c. c.ioctl_capable_retval) write_capable_retval
          (set_call_state (if retval then called_ok else called_failed)))
    else tfassert false

-- A call of capable() that the framework sees on both sides ends the path by an assertion, whatever
-- was recorded before, whatever the call is asked and whatever it returns.
pub capable_ends_path :
    (c : CapableState) (pre_retval retval : Bool) (pre_capability capability : ℤ)
    → (call_capable (pos 0) pre_retval pre_capability >> call_capable (pos 1) retval capability) c
      ≡ stop assertion
unfolding call_capable
capable_ends_path c pre_retval true pre_capability capability = refl
capable_ends_path c pre_retval false pre_capability capability = refl

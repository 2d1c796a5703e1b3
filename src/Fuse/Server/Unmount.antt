-- ===== src/Fuse/Server/Unmount.antt =====
-- When the loop of `unmount` in filesystem/server/provider/fuse/main.go ends.
use fuse_video_streamer.Base.{
  Bool-cases, inl, inr, ℕ, zero, suc, ◌<◌, ◌≡◌, ◌∙◌, refl, Bool, true, false, Option, none, some,
  arith, if◌then◌else◌,
}
use fuse_video_streamer.Go.{wrapped, max_tries_to_unmount, Error, Ended, returns}
use fuse_video_streamer.Fuse.Server.{
  Mount, Server, after_try, unmount, CloseResult, closes, runs, crashes, after_unmount,
  after_file_system,
}

module _ {U : Type 0} (mount : Mount U) where
  -- The mount behind so many tries.
  abbrev pub tried : ℕ → U → U
  tried zero u = u
  tried (suc k) u = tried k (mount.try_unmount u).1

  -- The mount with its connection closed, if there is one.
  abbrev pub disconnected : Bool → U → U
  disconnected has_connection u = if has_connection then (mount.close_connection u).1 else u

  -- The try failed, with an error that is "resource busy".
  abbrev pub Busy : Error → Type 0
  Busy none = ⊥
  Busy (some e) = mount.is_busy e ≡ true

  -- What `unmount` returns after a try that was its last.
  abbrev pub last_error : Error → Error
  last_error none = none
  last_error (some e) = some (wrapped max_tries_to_unmount e)

  abbrev pub IsLast : Error → Type 0
  IsLast none = Unit {0}
  IsLast (some e) = mount.is_busy e ≡ false

  after_try-Busy :
      (r : Error × U) (rest : Option (Error × U)) → Busy r.0 → after_try mount r rest ≡ rest
  after_try-Busy (none, u) rest b = absurd b
  after_try-Busy (some e, u) rest b = rw b refl

  after_try-IsLast :
      (r : Error × U) (rest : Option (Error × U))
      → IsLast r.0
      → after_try mount r rest ≡ some (last_error r.0, r.1)
  after_try-IsLast (none, u) rest b = refl
  after_try-IsLast (some e, u) rest b = rw b refl

  -- The loop of unmount ends with the first try that does not fail with "resource busy": with more
  -- iterations than the busy tries before it, it returns nil if that try succeeded and else an
  -- error that wraps the try's.
  pub unmount_ends :
      (k fuel : ℕ) (u : U)
      → ((i : ℕ) → i < k → Busy (mount.try_unmount (tried i u)).0)
      → IsLast (mount.try_unmount (tried k u)).0
      → k < fuel
      → unmount mount fuel u ≡ some (last_error (mount.try_unmount (tried k u)).0, tried (suc k) u)
  unfolding unmount
  unmount_ends k zero u busy ends enough = absurd (omega arith)
  unmount_ends zero (suc fuel) u busy ends enough = after_try-IsLast (mount.try_unmount u) _ ends
  unmount_ends (suc k) (suc fuel) u busy ends enough =
      after_try-Busy (mount.try_unmount u) _ (busy 0 (omega arith))
      ∙ unmount_ends k fuel (mount.try_unmount u).1 (λ i below. busy (suc i) (omega (arith, below)))
          ends (omega (arith, enough))

  -- If every try fails with "resource busy", no number of iterations is enough for the loop of
  -- unmount to end.
  pub unmount_never_ends :
      (fuel : ℕ) (u : U)
      → ((i : ℕ) → Busy (mount.try_unmount (tried i u)).0)
      → unmount mount fuel u ≡ none
  unfolding unmount
  unmount_never_ends zero u busy = refl
  unmount_never_ends (suc fuel) u busy =
      after_try-Busy (mount.try_unmount u) _ (busy 0)
      ∙ unmount_never_ends fuel (mount.try_unmount u).1 (λ i. busy (suc i))

module _ {F U : Type 0} (mount : Mount U) (close_file_system : F → Ended F) where
  -- `Close` came back, the server holds neither a file system nor a connection, and its mount is that
  -- one.
  abbrev pub IsShut : U → CloseResult F U → Type 0
  IsShut u (closes s) = (s.file_system ≡ none) × (s.has_connection ≡ false) × (s.mount ≡ u)
  IsShut u runs = ⊥
  IsShut u (crashes p) = ⊥

  after_unmount-IsShut :
      (s : Server F U) (r : Error × U)
      → IsShut
          (disconnected mount s.has_connection r.1)
          (after_unmount mount close_file_system s (some r))
  after_unmount-IsShut s r = elim (Bool-cases s.has_connection) [
    | inl c ↦ simp c (refl, refl, refl)
    | inr c ↦ simp c (refl, refl, refl)
  ]

  -- What follows the return of the file system's `Close` ends with the first try that is not busy.
  pub after_file_system-IsShut :
      (k fuel : ℕ) (s : Server F U) (f : F)
      → ((i : ℕ) → i < k → Busy mount (mount.try_unmount (tried mount i s.mount)).0)
      → IsLast mount (mount.try_unmount (tried mount k s.mount)).0
      → k < fuel
      → IsShut
          (disconnected mount s.has_connection (tried mount (suc k) s.mount))
          (after_file_system mount close_file_system fuel s (returns f)).0
  after_file_system-IsShut k fuel s f busy last enough =
      rw (unmount_ends mount k fuel s.mount busy last enough) (
        after_unmount-IsShut s (
          last_error mount (mount.try_unmount (tried mount k s.mount)).0,
          tried mount (suc k) s.mount,
        ))

-- ===== src/Mount/Inuse.antt =====
-- The lock of an upper or work directory that a mount uses (util.c: ovl_inuse_trylock,
-- ovl_inuse_unlock, ovl_is_inuse), with mounts that come and go in any order.
use fzz_overlay.Base.{
  ℕ, ◌≡◌, ◌≢◌, refl, sym, ap, ◌∙◌, Bool, Bool-cases, true, false, not, ◌==◌, if◌then◌else◌, inl,
  inr, arith,
}

-- I_OVL_INUSE of the inode: what is returned, and the flag then.
unfoldable pub inuse_trylock : Bool → Bool × Bool
inuse_trylock inuse = if not inuse then (true, true) else (false, inuse)

-- Whether the WARN_ON fires, and the flag then.
unfoldable pub inuse_unlock : Bool → Bool × Bool
inuse_unlock inuse = (not inuse, false)

unfoldable pub is_inuse : Bool → Bool
is_inuse inuse = inuse

-- The flag of one directory, and the mounts that have got it.
pub record Claims : Type 0 where
  pub inuse : Bool
  pub holds : ℕ → Bool

abbrev pub put : (ℕ → Bool) → ℕ → Bool → ℕ → Bool
put f i b j = if j == i then b else f j

abbrev pub trylock_by : ℕ → Claims → Claims
trylock_by i s =
    let (got, after) = inuse_trylock s.inuse in
    record { inuse = after; holds = if got then put s.holds i true else s.holds }

abbrev pub unlock_by : ℕ → Claims → Claims
unlock_by i s = record { inuse = (inuse_unlock s.inuse).1; holds = put s.holds i false }

-- A mount tries to get the directory, or gives back one that it has got.
pub data Step (s : Claims) : Claims → Type 0 where
  try : (i : ℕ) → Step s (trylock_by i s)
  leave : (i : ℕ) → s.holds i ≡ true → Step s (unlock_by i s)

pub data Reach : Claims → Type 0 where
  unused : Reach (record { inuse = false; holds = λ i. false })
  later : {s t : Claims} → Reach s → Step s t → Reach t

-- The directory has one mount if it is in use, and none otherwise.
pub record IsExclusive (s : Claims) : Type 0 where
  pub one : (i j : ℕ) → s.holds i ≡ true → s.holds j ≡ true → i ≡ j
  pub flagged : (i : ℕ) → s.holds i ≡ true → is_inuse s.inuse ≡ true

put-true : (f : ℕ → Bool) (i j : ℕ) → ((k : ℕ) → f k ≡ false) → put f i true j ≡ true → j ≡ i
put-true f i j none h = elim (Bool-cases (j == i)) [
  | inl e ↦ ground (arith, e)
  | inr e ↦ cc (sym (none j) ∙ sym (ap (λ b. if b then true else f j) e) ∙ h)
]

put-false : (f : ℕ → Bool) (i j : ℕ) → put f i false j ≡ true → (j == i ≡ false) × (f j ≡ true)
put-false f i j h = elim (Bool-cases (j == i)) [
  | inl e ↦ cc (sym (ap (λ b. if b then false else f j) e) ∙ h)
  | inr e ↦ (e, sym (ap (λ b. if b then false else f j) e) ∙ h)
]

tried :
    (i : ℕ) (b : Bool) (f : ℕ → Bool)
    → IsExclusive (record { inuse = b; holds = f })
    → IsExclusive (trylock_by i (record { inuse = b; holds = f }))
unfolding inuse_trylock is_inuse
tried i true f h = h
tried i false f h =
    let none : (k : ℕ) → f k ≡ false =
      λ k. elim (Bool-cases (f k)) [ inl e ↦ cc (h.flagged k e) | inr e ↦ e ] in
    record {
      one = λ j k a b. put-true f i j none a ∙ sym (put-true f i k none b);
      flagged = λ j a. refl;
    }

left :
    (i : ℕ) (b : Bool) (f : ℕ → Bool)
    → f i ≡ true
    → IsExclusive (record { inuse = b; holds = f })
    → IsExclusive (unlock_by i (record { inuse = b; holds = f }))
unfolding inuse_unlock
left i b f held h =
    let none : (j : ℕ) → put f i false j ≢ true = λ j e.
      let (n, k) = put-false f i j e in let same = h.one j i k held in ground (arith, n, same) in
    record { one = λ j k a _. absurd (none j a); flagged = λ j a. absurd (none j a) }

Step-IsExclusive : (s t : Claims) → Step s t → IsExclusive s → IsExclusive t
Step-IsExclusive s _ (try i) h = tried i s.inuse s.holds h
Step-IsExclusive s _ (leave i held) h = left i s.inuse s.holds held h

Reach-IsExclusive : (s : Claims) → Reach s → IsExclusive s
Reach-IsExclusive _ unused = record { one = λ i j a b. cc; flagged = λ i a. cc }
Reach-IsExclusive _ (later r step) = Step-IsExclusive _ _ step (Reach-IsExclusive _ r)

-- However mounts take a directory and give it back, in any order: no two have it at once, a mount
-- that gives it back finds it in use, so that the WARN_ON does not fire, and nobody gets it
-- while another has it.
pub inuse_exclusive :
    (s : Claims) (i j : ℕ)
    → Reach s
    → s.holds i ≡ true
    → (s.holds j ≡ true → i ≡ j)
      × ((inuse_unlock s.inuse).0 ≡ false)
      × ((inuse_trylock s.inuse).0 ≡ false)
unfolding inuse_unlock inuse_trylock is_inuse
inuse_exclusive s i j r h =
    let e = Reach-IsExclusive s r in
    let used : s.inuse ≡ true = e.flagged i h in (e.one i j h, rw used refl, rw used refl)

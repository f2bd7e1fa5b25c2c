-- ===== src/Toggle/Verdict.antt =====
-- What the verdict of test1.c means.
use mitosis_tests.Base.{
  ℕ, ◌≡◌, ◌↔◌, true, false, List, [], ◌∷◌, arith, is_neg, is_nonzero, not, is_positive, pos, refl,
  sym, subst, ◌∙◌, ℤ, Bool, Bool,
}
use mitosis_tests.Machine.{
  Event, set, get, status, calls, start, Replication, Switches, pr_get_pgtable_repl,
  pr_set_pgtable_repl, Process, Program, observed, when, exit, ◌>>=◌, ◌>>◌,
}
use mitosis_tests.Toggle.{main}

-- The calls, newest first, of a run in which replication was off, could be switched on, then
-- showed a nonempty mask, could be switched off, and showed the empty mask again.
abbrev pub IsFullCycle : List Event → Type 0
IsFullCycle (get off_again ∷ set n off ∷ get mask ∷ set m on ∷ get off_first ∷ []) =
    (off_first ≡ pos 0)
    × (m ≡ 1)
    × (is_neg on ≡ false)
    × (is_positive mask ≡ true)
    × (n ≡ 0)
    × (is_neg off ≡ false)
    × (off_again ≡ pos 0)
IsFullCycle _ = ⊥

is_zero : (a : ℤ) → is_nonzero a ≡ false → a ≡ pos 0
is_zero a h = ground arith

is_shown : (a : ℤ) → is_neg a ≡ false → not (is_nonzero a) ≡ false → is_positive a ≡ true
is_shown a h nz = ground arith

module _ {W : Type 0} ⦃sys : Replication W⦄ where
  -- a call that has to answer no error, and an answer that is not rejected
  abbrev guarded :
      (W → ℤ × W) → (ℤ → Event) → (ℤ → Bool) → Program W (Unit {0}) → Program W (Unit {0})
  guarded f e reject k = do
    ret ← observed f e
    when (is_neg ret) (exit 1)
    when (reject ret) (exit 1)
    k

  abbrev answer : (W → ℤ × W) → Process W → ℤ
  answer f s = (f s.env).0

  abbrev after : (W → ℤ × W) → (ℤ → Event) → Process W → Process W
  after f e s = record { env = (f s.env).1; trace = e (answer f s) ∷ s.trace }

  not_taken :
      (b : Bool) (k : Program W (Unit {0})) (s : Process W)
      → status (do when b (exit 1); k) s ≡ 0
      → (b ≡ false) × (status k s ≡ 0) × ((do when b (exit 1); k) s ≡ k s)
  not_taken true k s h = ground arith
  not_taken false k s h = (refl, h, refl)

  guarded-passes :
      (f : W → ℤ × W) (e : ℤ → Event) (reject : ℤ → Bool) (k : Program W (Unit {0})) (s : Process W)
      → status (guarded f e reject k) s ≡ 0
      → (is_neg (answer f s) ≡ false)
        × (reject (answer f s) ≡ false)
        × (status k (after f e s) ≡ 0)
        × (guarded f e reject k s ≡ k (after f e s))
  guarded-passes f e reject k s h =
      let t = after f e s in
      let (kind, h', p) =
        not_taken (is_neg (answer f s)) (do when (reject (answer f s)) (exit 1); k) t h in
      let (good, h'', q) = not_taken (reject (answer f s)) k t h' in (kind, good, h'', p ∙ q)

  -- the rest of the run, from each call on
  abbrev ask : W → ℤ × W
  ask = sys.prctl pr_get_pgtable_repl 0

  abbrev change : ℕ → W → ℤ × W
  change n = sys.prctl pr_set_pgtable_repl n

  abbrev asked_again : Program W (Unit {0})
  asked_again = guarded ask get is_nonzero (exit 0)

  abbrev switched_off : Program W (Unit {0})
  switched_off = guarded (change 0) (set 0) (λ _. false) asked_again

  abbrev asked_on : Program W (Unit {0})
  asked_on = guarded ask get (λ a. not (is_nonzero a)) switched_off

  abbrev switched_on : Program W (Unit {0})
  switched_on = guarded (change 1) (set 1) (λ _. false) asked_on

  only : (w : W) → status main (start w) ≡ 0 → IsFullCycle (calls main (start w))
  unfolding main
  only w h =
      let (n1, z1, h1, e1) = guarded-passes ask get is_nonzero switched_on (start w) h in
      let (n2, z2, h2, e2) = guarded-passes (change 1) (set 1) (λ _. false) asked_on _ h1 in
      let (n3, z3, h3, e3) = guarded-passes ask get (λ a. not (is_nonzero a)) switched_off _ h2 in
      let (n4, z4, h4, e4) = guarded-passes (change 0) (set 0) (λ _. false) asked_again _ h3 in
      let (n5, z5, h5, e5) = guarded-passes ask get is_nonzero (exit 0) _ h4 in
      subst (λ o. IsFullCycle o.1.trace) (sym (e1 ∙ e2 ∙ e3 ∙ e4 ∙ e5))
        (is_zero _ z1, refl, n2, is_shown _ n3 z3, refl, n4, is_zero _ z5)

  enough : (w : W) → IsFullCycle (calls main (start w)) → status main (start w) ≡ 0
  unfolding main
  enough w h = ground arith

  -- Whatever the kernel answers, test1.c passes exactly if its calls of prctl were, in this order: GET
  -- with answer 0, SET 1 with no error, GET with a positive answer, SET 0 with no error, and GET with
  -- answer 0.
  pub toggle-passes_iff : (w : W) → (status main (start w) ≡ 0) ↔ IsFullCycle (calls main (start w))
  toggle-passes_iff w = (only w, enough w)

  -- On a kernel that switches replication on and off as documented, test1.c passes from every state
  -- whose mask is empty.
  toggle-passes :
      {mask : W → ℕ} (switches : Switches sys mask) (w : W) → mask w ≡ 0 → status main (start w) ≡ 0
  unfolding main
  toggle-passes switches w h = grind (
    arith, switches.on_answer, switches.on_mask, switches.get_answer, switches.get_mask,
    switches.off_answer, switches.off_mask,
  )

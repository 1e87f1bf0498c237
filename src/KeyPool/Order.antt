-- ===== src/KeyPool/Order.antt =====
-- The order in which the members are tried (providers/pool.py, _order).
use core_ai_protocol_suite.Prelude.{
  sym, ap, ◌∙◌, ℕ, zero, suc, ◌+◌, ◌-◌, ◌%◌, ◌≤◌, ◌<◌, ◌≡◌, refl, ◌⊎◌, inl, inr, Bool, true, false,
  List, [], ◌∷◌, length, All, arith, leb, le→leb, Bool-cases,
}
use mathlib.Core.Path.{subst}
use native.Mathlib.Nat.{mod-eq_of_lt, mod-lt, add-mod_right}
use native.Mathlib.Decide.{ℕ_discrete, dec_le}
use core_ai_protocol_suite.KeyPool.{KeyPool, rotation, keep, or_all, full_order, is_live, order}

-- `i` is among the members to try.
abbrev pub Among : ℕ → List ℕ → Type 0
Among i [] = ⊥
Among i (j ∷ js) = (i ≡ j) ⊎ Among i js

length-rotation : (start n k m : ℕ) → length (rotation start n k m) ≡ m
unfolding rotation
length-rotation start n k zero = refl
length-rotation start n k (suc m) = omega (arith, length-rotation start n (k + 1) m)

Among-rotation :
    (start n k m j : ℕ) → k ≤ j → j < k + m → Among ((start + j) % n) (rotation start n k m)
unfolding rotation
Among-rotation start n k zero j le lt = absurd (omega arith)
Among-rotation start n k (suc m) j le lt = elim (ℕ_discrete j k) [
  | yes e ↦ inl (rw e)
  | no ne ↦ inr (Among-rotation start n (k + 1) m j (omega arith) (omega arith))
]

later_turn : (start n i : ℕ) → start ≤ i → i < n → (start + (i - start)) % n ≡ i
later_turn start n i le lt = let e : start + (i - start) ≡ i = omega arith in rw e (mod-eq_of_lt lt)

wrapped_turn :
    (start n i : ℕ) → ¬ (start ≤ i) → start < n → i < n → (start + (i + n - start)) % n ≡ i
wrapped_turn start n i gt s lt =
    let e : start + (i + n - start) ≡ i + n = omega arith in
    rw e (rw add-mod_right (mod-eq_of_lt lt))

-- The offset at which member `i` comes up.
turn : (start n i : ℕ) → start < n → i < n → (j : ℕ) × (j < n) × ((start + j) % n ≡ i)
turn start n i s lt = elim (dec_le start i) [
  | yes le ↦ (i - start, omega arith, later_turn start n i le lt)
  | no gt ↦ (i + n - start, omega arith, wrapped_turn start n i gt s lt)
]

live_now : (now : ℕ) (p : KeyPool) (i : ℕ) → p.parked i ≤ now → is_live p now i ≡ true
unfolding is_live
live_now now p i le = le→leb (p.parked i) now le

-- The rotation holds every member of the pool, and as many entries as there are members: each
-- member exactly once.
pub full_order_complete :
    (p : KeyPool) (i : ℕ) → i < p.size → Among i (full_order p) × (length (full_order p) ≡ p.size)
unfolding full_order
full_order_complete p i lt =
    let (j, less, e) = turn (p.next % p.size) p.size i (mod-lt _ (omega arith)) lt in
    (
      subst (λ k. Among k (rotation (p.next % p.size) p.size 0 p.size)) e
          (Among-rotation (p.next % p.size) p.size 0 p.size j (omega arith) (omega arith)),
      length-rotation (p.next % p.size) p.size 0 p.size,
    )

true≢false : ¬ (true ≡ false)
true≢false e = cc

pub Among-keep :
    (test : ℕ → Bool) (i : ℕ) (is : List ℕ) → Among i is → test i ≡ true → Among i (keep test is)
unfolding keep
Among-keep test i [] a h = elim a [ ]
Among-keep test i (j ∷ js) a h = elim (Bool-cases (test j)) [
  | inl t ↦ rw t (elim a [ inl e ↦ inl e | inr m ↦ inr (Among-keep test i js m h) ])
  | inr f ↦ rw f (elim a [
    | inl e ↦ absurd (true≢false (sym h ∙ ap test e ∙ f))
    | inr m ↦ Among-keep test i js m h
  ])
]

pub keep_sound : (test : ℕ → Bool) (is : List ℕ) → All (λ i. test i ≡ true) (keep test is)
unfolding keep
keep_sound test [] = tt
keep_sound test (j ∷ js) = ground (arith, keep_sound test js)

or_all_first : (i : ℕ) (live all : List ℕ) → Among i live → or_all live all ≡ live
unfolding or_all
or_all_first i [] all a = elim a [ ]
or_all_first i (j ∷ js) all a = refl

-- As long as one key is not parked, `_order` gives exactly keys that are not parked, that key
-- among them; and the next request starts one place further on.
pub order_live :
    (now : ℕ) (p : KeyPool) (i : ℕ)
    → i < p.size
    → p.parked i ≤ now
    → Among i (order now p).1
      × All (λ j. leb (p.parked j) now ≡ true) (order now p).1
      × ((order now p).0.next ≡ (p.next + 1) % p.size)
unfolding order
order_live now p i lt le =
    let there : Among i (keep (is_live p now) (full_order p)) =
      Among-keep (is_live p now) i (full_order p) (full_order_complete p i lt).0
        (live_now now p i le) in
    let same : or_all (keep (is_live p now) (full_order p)) (full_order p)
        ≡ keep (is_live p now) (full_order p) =
      or_all_first i _ (full_order p) there in
    rw same (there, keep_sound (is_live p now) (full_order p), refl)

-- ===== src/Tools/Sweeping.antt =====
-- The table of rate windows, and what the sweep for stale windows leaves of it (tools/registry.py,
-- _check_rate).
use mathlib.Core.Bool.{true≢false}
use core_ai_protocol_suite.Dict
use core_ai_protocol_suite.Dict.{Dict, IsDict}
use core_ai_protocol_suite.Prelude.{
  All, All-map, true, false, ℕ, ◌≤◌, ◌≡◌, refl, sym, ap, ◌∙◌, inl, inr, String, Pair-discrete,
  Option, none, some, List, [], ◌∷◌, length, leb, if◌then◌else◌, Bool-cases, arith,
}
use core_ai_protocol_suite.Tools.{max_rate_limit_keys, stale, sweep, make_room}
use core_ai_protocol_suite.Tools.Rate.{recent, Rises, Rises-weaken, stale-recent}

abbrev pub Key : Type 0
Key = String × String

abbrev pub Windows : Type 0
Windows = Dict Key (List ℕ)

abbrev pub or_empty : Option (List ℕ) → List ℕ
or_empty none = []
or_empty (some ts) = ts

abbrev pub window : Key → Windows → List ℕ
window k d = or_empty (Dict.get Pair-discrete k d)

-- The specification keeps every call that was let through, for each key, and forgets none.
abbrev pub Log : Type 0
Log = Key → List ℕ

-- The windows hold rising times up to `high`, and agree with the log on what is recent from then on.
pub record Refines (high : ℕ) (d : Windows) (log : Log) : Type 0 where
  pub distinct : IsDict Pair-discrete d
  pub rising : (k : Key) → Rises 0 (window k d) high
  pub agrees :
      (k : Key) (later : ℕ) → high ≤ later → recent later (window k d) ≡ recent later (log k)

get-sweep-none :
    (now : ℕ) (k : Key) (d : Windows)
    → Dict.get Pair-discrete k d ≡ none
    → Dict.get Pair-discrete k (sweep now d) ≡ none
unfolding sweep Dict.get
get-sweep-none now k [] h = refl
get-sweep-none now k ((j, ts) ∷ d) h = ground (arith, get-sweep-none now k d)

sweep-IsDict : (now : ℕ) (d : Windows) → IsDict Pair-discrete d → IsDict Pair-discrete (sweep now d)
unfolding sweep
sweep-IsDict now [] u = tt
sweep-IsDict now ((j, ts) ∷ d) u = ground (arith, sweep-IsDict now d, get-sweep-none now j d)

abbrev swept : ℕ → Option (List ℕ) → Option (List ℕ)
swept now none = none
swept now (some ts) = if stale now ts then none else some ts

get-sweep :
    (now : ℕ) (k : Key) (d : Windows)
    → IsDict Pair-discrete d
    → Dict.get Pair-discrete k (sweep now d) ≡ swept now (Dict.get Pair-discrete k d)
unfolding sweep Dict.get
get-sweep now k [] u = refl
get-sweep now k ((j, ts) ∷ d) u = ground (arith, get-sweep now k d, get-sweep-none now j d)

pub later-Refines :
    (high now : ℕ) (d : Windows) (log : Log) → high ≤ now → Refines high d log → Refines now d log
later-Refines high now d log le v = record {
  distinct = v.distinct;
  rising = λ k. Rises-weaken 0 0 (window k d) high now (omega arith) le (v.rising k);
  agrees = λ k later h. v.agrees k later (omega arith);
}

swept-rising :
    (now high : ℕ) (o : Option (List ℕ))
    → Rises 0 (or_empty o) high
    → Rises 0 (or_empty (swept now o)) high
swept-rising now high none r = r
swept-rising now high (some ts) r = elim (Bool-cases (stale now ts)) [
  | inl s ↦ rw s (omega arith)
  | inr s ↦ rw s r
]

swept-recent :
    (now later high : ℕ) (o : Option (List ℕ))
    → Rises 0 (or_empty o) high
    → now ≤ later
    → recent later (or_empty (swept now o)) ≡ recent later (or_empty o)
unfolding recent
swept-recent now later high none r le = refl
swept-recent now later high (some ts) r le = elim (Bool-cases (stale now ts)) [
  | inl s ↦ rw s (sym (stale-recent now later 0 ts high r s le))
  | inr s ↦ rw s refl
]

sweep-Refines :
    (now : ℕ) (d : Windows) (log : Log) → Refines now d log → Refines now (sweep now d) log
sweep-Refines now d log v = record {
  distinct = sweep-IsDict now d v.distinct;
  rising = λ k.
      rw (get-sweep now k d v.distinct)
        (swept-rising now now (Dict.get Pair-discrete k d) (v.rising k));
  agrees = λ k later h.
      rw (get-sweep now k d v.distinct) (
        swept-recent now later now (Dict.get Pair-discrete k d) (v.rising k) h
        ∙ v.agrees k later h);
}

pub make_room-Refines :
    (now : ℕ) (d : Windows) (log : Log) → Refines now d log → Refines now (make_room now d) log
unfolding make_room
make_room-Refines now d log v = ground (arith, sweep-Refines now d log v)

live-recent : (now : ℕ) (ts : List ℕ) → stale now ts ≡ false → 1 ≤ recent now ts
unfolding stale recent
live-recent now [] h = ground arith
live-recent now (t ∷ []) h = ground arith
live-recent now (t ∷ u ∷ ts) h = ground (arith, live-recent now (u ∷ ts) h)

abbrev IsLive : ℕ → Key × List ℕ → Type 0
IsLive now e = stale now e.1 ≡ false

sweep-IsLive : (now : ℕ) (d : Windows) → All (IsLive now) (sweep now d)
unfolding sweep
sweep-IsLive now [] = tt
sweep-IsLive now ((k, ts) ∷ d) = elim (Bool-cases (stale now ts)) [
  | inl s ↦ rw (s, sweep) (sweep-IsLive now d)
  | inr s ↦ rw (s, sweep) (s, sweep-IsLive now d)
]

pub make_room-IsLive :
    (now : ℕ) (d : Windows)
    → leb max_rate_limit_keys (length (make_room now d)) ≡ true
    → All (IsLive now) (make_room now d)
unfolding make_room
make_room-IsLive now d h = elim (Bool-cases (leb max_rate_limit_keys (length d))) [
  | inl f ↦ rw (f, make_room) (sweep-IsLive now d)
  | inr f ↦ absurd (true≢false (sym (rw (f, make_room) at h) ∙ f))
]

pub make_room-none :
    (now : ℕ) (key : Key) (d : Windows)
    → Dict.get Pair-discrete key d ≡ none
    → Dict.get Pair-discrete key (make_room now d) ≡ none
unfolding make_room
make_room-none now key d h = ground (arith, get-sweep-none now key d h)

-- Every entry of a dict is found under its key.
entries_found :
    (d : Windows) → IsDict Pair-discrete d → All (λ e. Dict.get Pair-discrete e.0 d ≡ some e.1) d
unfolding Dict.get
entries_found [] u = tt
entries_found ((k, ts) ∷ d) u = (
  ground arith,
  All-map (λ e. Dict.get Pair-discrete e.0 d ≡ some e.1)
      (λ e. Dict.get Pair-discrete e.0 ((k, ts) ∷ d) ≡ some e.1) (λ e h. ground (arith, u.0, h)) d
      (entries_found d u.1),
)

both :
    (P Q R : Key × List ℕ → Type 0)
    → ((e : Key × List ℕ) → P e → Q e → R e)
    → (d : Windows) → All P d
    → All Q d
    → All R d
both P Q R f [] u v = tt
both P Q R f (e ∷ d) u v = (f e u.0 v.0, both P Q R f d u.1 v.1)

-- The keys of a table of live windows had a call let through in the last minute.
pub live_logged :
    (now : ℕ) (d : Windows) (log : Log)
    → Refines now d log
    → All (IsLive now) d
    → All (λ e. 1 ≤ recent now (log e.0)) d
live_logged now d log v live =
    both (λ e. Dict.get Pair-discrete e.0 d ≡ some e.1) (IsLive now) (λ e. 1 ≤ recent now (log e.0))
      (λ e found h.
        let same : recent now (window e.0 d) ≡ recent now e.1 =
          ap (λ (o : Option (List ℕ)). recent now (or_empty o)) found in
        omega (arith, same, v.agrees e.0 now (omega arith), live-recent now e.1 h))
      d (entries_found d v.distinct) live

-- ===== src/Harness/Store/Control.antt =====
-- Reading a row back (harness/store.py).
use text.Mathlib.TextEquality.{eq_iff}
use core_ai_protocol_suite.Dict
use core_ai_protocol_suite.Prelude.{◌≡◌, ◌≢◌, refl, String, Option, none, some, [], ◌∷◌, arith}
use core_ai_protocol_suite.Harness.Store.{Run, RunStore, get, update}

abbrev pub mapped : (Run → Run) → Option Run → Option Run
mapped f none = none
mapped f (some r) = some (f r)

-- An update is what is read back, and nothing where there is no row.
pub get-update :
    (id : String) (f : Run → Run) (s : RunStore) → get id (update id f s) ≡ mapped f (get id s)
unfolding get update Dict.get
get-update id f [] = refl
get-update id f ((j, r) ∷ s) = ground (arith, get-update id f s, eq_iff j id)

pub get-update_other :
    (id q : String) (f : Run → Run) (s : RunStore) → id ≢ q → get q (update id f s) ≡ get q s
unfolding get update Dict.get
get-update_other id q f [] ne = refl
get-update_other id q f ((j, r) ∷ s) ne = ground (arith, get-update_other id q f s ne, eq_iff j id)

-- ===== src/Shell/Book.antt =====
-- A map from names, as cmd/qctl/main.go keeps its queues.
use Prim.Native.String.{String}
use text.Mathlib.Text.{◌==◌ as str_eq}
use text.Mathlib.TextEquality.{eq_iff}
use mpmc_queue.Prelude.{◌≡◌, Option, none, some, List, [], ◌∷◌, arith, if◌then◌else◌}

module _ {ℓ} {V : Type ℓ} where
  abbrev pub lookup : String → List (String × V) → Option V
  lookup k [] = none
  lookup k ((j, v) ∷ m) = if str_eq j k then some v else lookup k m

  -- The value of a name that is there is replaced.
  abbrev pub put : String → V → List (String × V) → List (String × V)
  put k v [] = (k, v) ∷ []
  put k v ((j, w) ∷ m) = if str_eq j k then (j, v) ∷ m else (j, w) ∷ put k v m

  pub lookup-put :
      (k j : String) (v : V) (m : List (String × V))
      → lookup j (put k v m) ≡ (if str_eq k j then some v else lookup j m)
  lookup-put k j v [] = ground arith
  lookup-put k j v ((i, w) ∷ m) =
      ground (arith, eq_iff k j, eq_iff i k, eq_iff i j, lookup-put k j v m)

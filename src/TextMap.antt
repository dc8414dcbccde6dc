-- ===== src/TextMap.antt =====
-- Go maps with string keys, as association lists read from the front.
use elite_gate.Prelude.{◌≡◌, refl, List, [], ◌∷◌, Option, none, some, arith, if◌then◌else◌}
use elite_gate.Text.{Text, text_eq}
use elite_gate.Text.Laws.{text_eq_iff}

module _ {ℓ} where
  abbrev pub TextMap : Type ℓ → Type ℓ
  TextMap V = List (Text × V)

module _ {ℓ} {V : Type ℓ} where
  unfoldable pub lookup : Text → TextMap V → Option V
  lookup k [] = none
  lookup k ((j, v) ∷ m) = if text_eq j k then some v else lookup k m

  -- m[k] = v
  unfoldable pub insert : Text → V → TextMap V → TextMap V
  insert k v [] = (k, v) ∷ []
  insert k v ((j, w) ∷ m) = if text_eq j k then (k, v) ∷ m else (j, w) ∷ insert k v m

  -- delete(m, k)
  unfoldable pub remove : Text → TextMap V → TextMap V
  remove k [] = []
  remove k ((j, w) ∷ m) = let rest = remove k m in if text_eq j k then rest else (j, w) ∷ rest

  abbrev put : Text → Option V → TextMap V → TextMap V
  put k none m = remove k m
  put k (some v) m = (k, v) ∷ m

  -- A loop over the map that rewrites or deletes each entry.
  unfoldable pub refresh : (V → Option V) → TextMap V → TextMap V
  refresh f [] = []
  refresh f ((j, v) ∷ m) = put j (f v) (refresh f m)

  pub lookup-insert :
      (k j : Text) (v : V) (m : TextMap V)
      → lookup j (insert k v m) ≡ (if text_eq k j then some v else lookup j m)
  unfolding lookup insert
  lookup-insert k j v [] = refl
  lookup-insert k j v ((i, w) ∷ m) =
      ground (arith, text_eq_iff k j, text_eq_iff i k, text_eq_iff i j, lookup-insert k j v m)

  pub lookup-remove :
      (k j : Text) (m : TextMap V)
      → lookup j (remove k m) ≡ (if text_eq k j then none else lookup j m)
  unfolding lookup remove
  lookup-remove k j [] = ground arith
  lookup-remove k j ((i, w) ∷ m) =
      ground (arith, text_eq_iff k j, text_eq_iff i k, text_eq_iff i j, lookup-remove k j m)

  abbrev pub and_then : Option V → (V → Option V) → Option V
  and_then none f = none
  and_then (some v) f = f v

  pub lookup-refresh :
      (f : V → Option V) (j : Text) (m : TextMap V)
      → lookup j (refresh f m) ≡ and_then (lookup j m) f
  unfolding lookup refresh
  lookup-refresh f j [] = refl
  lookup-refresh f j ((i, v) ∷ m) =
      ground (arith, text_eq_iff i j, lookup-refresh f j m, lookup-remove i j (refresh f m))

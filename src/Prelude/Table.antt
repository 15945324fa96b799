-- ===== src/Prelude/Table.antt =====
-- A mapping from texts: a Python `dict`, or a table with a primary key. Entries stand in insertion
-- order. Clients compute with the functions or take their laws in `if` form.
use mathlib.Core.Logic.{ite}
use mathlib.Core.List.{List, [], ◌∷◌, ◌++◌}
use mathlib.Core.Option.{Option, none, some}
use mathlib.Core.Path.{◌≡◌, refl}
use native.Mathlib.Omega.{arith}
use Prim.Native.Nat.{◌≤◌}
use url_shortener_100x.Prelude.Lists.{Text, text_dec, length}

abbrev pub Table {ℓ} : Type ℓ → Type ℓ
Table V = List (Text × V)

module _ {ℓ} {V : Type ℓ} where
  -- `d.get(k)`
  unfoldable pub get : Table V → Text → Option V
  get [] k = none
  get ((j, v) ∷ d) k = ite (text_dec j k) (some v) (get d k)

  -- `d[k] = v`: an existing key keeps its place.
  unfoldable pub put : Table V → Text → V → Table V
  put [] k v = (k, v) ∷ []
  put ((j, w) ∷ d) k v = ite (text_dec j k) ((j, v) ∷ d) ((j, w) ∷ put d k v)

  -- `d.pop(k, None)`
  unfoldable pub remove : Table V → Text → Table V
  remove [] k = []
  remove ((j, w) ∷ d) k = ite (text_dec j k) (remove d k) ((j, w) ∷ remove d k)

  pub get-put :
      (d : Table V) (k j : Text) (v : V) → get (put d k v) j ≡ ite (text_dec k j) (some v) (get d j)
  unfolding get put
  get-put [] k j v = refl
  get-put ((i, w) ∷ d) k j v = ground (arith, get-put d k j v)

  pub get-remove :
      (d : Table V) (k j : Text) → get (remove d k) j ≡ ite (text_dec k j) none (get d j)
  unfolding get remove
  get-remove [] k j = ground arith
  get-remove ((i, w) ∷ d) k j = ground (arith, get-remove d k j)

  pub get-append : (d e : Table V) (j : Text) (v : V) → get d j ≡ some v → get (d ++ e) j ≡ some v
  unfolding get
  get-append [] e j v h = absurd (ground arith)
  get-append ((i, w) ∷ d) e j v h = ground (arith, get-append d e j v)

  pub get-append_none : (d e : Table V) (j : Text) → get d j ≡ none → get (d ++ e) j ≡ get e j
  unfolding get
  get-append_none [] e j h = refl
  get-append_none ((i, w) ∷ d) e j h = ground (arith, get-append_none d e j)

  -- No key twice.
  unfoldable pub Distinct : Table V → Type ℓ
  Distinct [] = Unit
  Distinct ((k, v) ∷ d) = (get d k ≡ none) × Distinct d

  pub length-remove : (d : Table V) (k : Text) → length (remove d k) ≤ length d
  unfolding remove
  length-remove [] k = omega arith
  length-remove ((i, w) ∷ d) k = ground (arith, length-remove d k)

  pub remove-absent : (d : Table V) (k : Text) → get d k ≡ none → remove d k ≡ d
  unfolding get remove
  remove-absent [] k h = refl
  remove-absent ((i, w) ∷ d) k h = ground (arith, remove-absent d k)

pub ruleset table_laws = (get-put, get-remove)

-- ===== src/Prelude/Dict.antt =====
-- Python's `dict` with text keys, in insertion order. In a `dict` no key stands twice: `Unique`.
use Prim.Native.Nat.{suc, ◌≤◌}
use Prim.Native.String.{String}
use mathlib.Core.Path.{◌≡◌, refl}
use mathlib.Core.Logic.{◌⊎◌}
use mathlib.Core.Bool.{Bool, false}
use mathlib.Core.List.{List, [], ◌∷◌, ◌++◌}
use mathlib.Core.Option.{Option, none, some}
use native.Mathlib.Omega.{arith}
use text.Mathlib.Text.{◌==◌ as str_eq}
use text.Mathlib.TextEquality.{eq_iff}
use iicp_client_python.Prelude.Tests.{if◌then◌else◌, is_some}
use iicp_client_python.Prelude.Lists.{length, any}

abbrev pub Dict {ℓ} : Type ℓ → Type ℓ
Dict V = List (String × V)

module _ {ℓ} {V : Type ℓ} where
  -- `d.get(k)`
  unfoldable pub get : Dict V → String → Option V
  get [] k = none
  get ((j, v) ∷ d) k = if str_eq j k then some v else get d k

  -- `d[k] = v`: in place where the key is there, and else at the end
  unfoldable pub put : Dict V → String → V → Dict V
  put [] k v = (k, v) ∷ []
  put ((j, w) ∷ d) k v = let rest = put d k v in if str_eq j k then (k, v) ∷ d else (j, w) ∷ rest

  -- `d.pop(k, None)`
  unfoldable pub remove : Dict V → String → Dict V
  remove [] k = []
  remove ((j, w) ∷ d) k = let rest = remove d k in if str_eq j k then rest else (j, w) ∷ rest

  -- `{k: v for k, v in d.items() if p(v)}`
  unfoldable pub keep : (V → Bool) → Dict V → Dict V
  keep p [] = []
  keep p ((j, w) ∷ d) = let rest = keep p d in if p w then (j, w) ∷ rest else rest

  -- `k in d`
  abbrev pub contains : Dict V → String → Bool
  contains d k = is_some (get d k)

  -- `d.values()`
  unfoldable pub values : Dict V → List V
  values [] = []
  values ((j, v) ∷ d) = v ∷ values d

  -- `list(d)`
  unfoldable pub keys : Dict V → List String
  keys [] = []
  keys ((j, v) ∷ d) = j ∷ keys d

  abbrev pub Unique : Dict V → Type ℓ
  Unique [] = Unit
  Unique ((j, v) ∷ d) = (get d j ≡ none) × Unique d

  abbrev pub kept : (V → Bool) → Option V → Option V
  kept p none = none
  kept p (some v) = if p v then some v else none

  pub get-nil : (k : String) → get [] k ≡ none
  unfolding get
  get-nil k = refl

  pub get-put :
      (d : Dict V) (k j : String) (v : V)
      → get (put d k v) j ≡ (if str_eq k j then some v else get d j)
  unfolding get put
  get-put [] k j v = refl
  get-put ((i, w) ∷ d) k j v = ground (arith, eq_iff k j, eq_iff i k, eq_iff i j, get-put d k j v)

  pub get-remove :
      (d : Dict V) (k j : String) → get (remove d k) j ≡ (if str_eq k j then none else get d j)
  unfolding get remove
  get-remove [] k j = ground arith
  get-remove ((i, w) ∷ d) k j = ground (arith, eq_iff k j, eq_iff i k, eq_iff i j, get-remove d k j)

  get-keep-none :
      (p : V → Bool) (d : Dict V) (k : String) → get d k ≡ none → get (keep p d) k ≡ none
  unfolding get keep
  get-keep-none p [] k h = refl
  get-keep-none p ((i, w) ∷ d) k h = ground (arith, get-keep-none p d k)

  pub get-keep :
      (p : V → Bool) (d : Dict V) (k : String) → Unique d → get (keep p d) k ≡ kept p (get d k)
  unfolding get keep
  get-keep p [] k u = refl
  get-keep p ((i, w) ∷ d) k u = ground (arith, eq_iff i k, get-keep p d k u.1, get-keep-none p d k)

  -- What is found after a write is what was written, or what was there.
  pub get-put_cases :
      (d : Dict V) (k j : String) (v w : V)
      → get (put d k v) j ≡ some w
      → ((k ≡ j) × (v ≡ w)) ⊎ (get d j ≡ some w)
  get-put_cases d k j v w h = ground (arith, get-put d k j v, eq_iff k j)

  -- What is found after a removal was there.
  pub get-remove-some :
      (d : Dict V) (k j : String) (w : V) → get (remove d k) j ≡ some w → get d j ≡ some w
  get-remove-some d k j w h = ground (arith, get-remove d k j)

  -- A new key goes to the end, an old one keeps its place.
  pub keys-put :
      (d : Dict V) (k : String) (v : V)
      → keys (put d k v) ≡ (if contains d k then keys d else keys d ++ k ∷ [])
  unfolding get put keys
  keys-put [] k v = refl
  keys-put ((i, w) ∷ d) k v = ground (arith, keys-put d k v, eq_iff i k)

  -- Removing an absent key changes nothing.
  pub remove-absent : (d : Dict V) (k : String) → get d k ≡ none → remove d k ≡ d
  unfolding get remove
  remove-absent [] k h = refl
  remove-absent ((i, w) ∷ d) k h = ground (arith, remove-absent d k)

  pub length-keys : (d : Dict V) → length (keys d) ≡ length d
  unfolding keys
  length-keys [] = refl
  length-keys ((i, w) ∷ d) = omega (arith, length-keys d)

  pub size-put :
      (d : Dict V) (k : String) (v : V)
      → length (put d k v) ≡ (if contains d k then length d else suc (length d))
  unfolding get put
  size-put [] k v = refl
  size-put ((i, w) ∷ d) k v = ground (arith, size-put d k v)

  pub size-remove-le : (d : Dict V) (k : String) → length (remove d k) ≤ length d
  unfolding remove
  size-remove-le [] k = omega arith
  size-remove-le ((i, w) ∷ d) k = ground (arith, size-remove-le d k)

  pub size-keep-le : (p : V → Bool) (d : Dict V) → length (keep p d) ≤ length d
  unfolding keep
  size-keep-le p [] = omega arith
  size-keep-le p ((i, w) ∷ d) = ground (arith, size-keep-le p d)

  pub Unique-put : (d : Dict V) (k : String) (v : V) → Unique d → Unique (put d k v)
  unfolding get put
  Unique-put [] k v u = (refl, tt)
  Unique-put ((i, w) ∷ d) k v u =
      ground (arith, eq_iff i k, eq_iff k i, get-put d k i v, Unique-put d k v u.1)

  pub Unique-remove : (d : Dict V) (k : String) → Unique d → Unique (remove d k)
  unfolding get remove
  Unique-remove [] k u = tt
  Unique-remove ((i, w) ∷ d) k u = ground (arith, get-remove d k i, Unique-remove d k u.1)

  pub Unique-keep : (p : V → Bool) (d : Dict V) → Unique d → Unique (keep p d)
  unfolding keep
  Unique-keep p [] u = tt
  Unique-keep p ((i, w) ∷ d) u = ground (arith, get-keep-none p d i, Unique-keep p d u.1)

  -- What no value has, no value found under a key has.
  pub any-values :
      (p : V → Bool) (d : Dict V) (k : String) (v : V)
      → any p (values d) ≡ false
      → get d k ≡ some v
      → p v ≡ false
  unfolding get values
  any-values p [] k v h e = cc
  any-values p ((i, w) ∷ d) k v h e = ground (arith, any-values p d k v)

pub ruleset dict_laws = (get-nil, get-put, get-remove)

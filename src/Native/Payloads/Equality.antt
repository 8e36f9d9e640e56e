-- ===== src/Native/Payloads/Equality.antt =====
-- The exact equality of payloads, as a test.
use iicp_client_python.Prelude.{
  ◌≡◌, refl, ap, Bool, true, false, ◌&&◌, [], ◌∷◌, ℤ, pos, negsuc, str_eq, ◌==◌, arith, eq_iff,
}
use iicp_client_python.Native.Values.{Value, null, flag, int, text, object, int_eq}
use iicp_client_python.Native.Payloads.{IntDict, Item, atom, submap}

-- exact equality, where `True` is not `1`
abbrev pub same_value : Value → Value → Bool
same_value null null = true
same_value (flag true) (flag true) = true
same_value (flag false) (flag false) = true
same_value (int a) (int b) = int_eq a b
same_value (text a) (text b) = str_eq a b
same_value (object a) (object b) = a == b
same_value _ _ = false

abbrev pub same_map : {V : Type 0} → (V → V → Bool) → IntDict V → IntDict V → Bool
same_map eq [] [] = true
same_map eq ((j, v) ∷ m) ((k, w) ∷ n) = j == k && eq v w && same_map eq m n
same_map eq _ _ = false

abbrev pub same_item : Item → Item → Bool
same_item (atom v) (atom w) = same_value v w
same_item (submap m) (submap n) = same_map same_value m n
same_item _ _ = false

int_eq_sound : (a b : ℤ) → int_eq a b ≡ true → a ≡ b
int_eq_sound (pos a) (pos b) h = ground arith
int_eq_sound (negsuc a) (negsuc b) h = ground arith
int_eq_sound (pos a) (negsuc b) h = cc
int_eq_sound (negsuc a) (pos b) h = cc

same_value_sound : (v w : Value) → same_value v w ≡ true → v ≡ w
same_value_sound null w h = ground arith
same_value_sound (flag true) w h = ground arith
same_value_sound (flag false) w h = ground arith
same_value_sound (int a) (int b) h = ap int (int_eq_sound a b h)
same_value_sound (int a) null h = cc
same_value_sound (int a) (flag b) h = cc
same_value_sound (int a) (text b) h = cc
same_value_sound (int a) (object b) h = cc
same_value_sound (text a) (text b) h = ground (arith, eq_iff a b)
same_value_sound (text a) null h = cc
same_value_sound (text a) (flag b) h = cc
same_value_sound (text a) (int b) h = cc
same_value_sound (text a) (object b) h = cc
same_value_sound (object a) w h = ground arith

pub same_map_sound :
    {V : Type 0} (eq : V → V → Bool)
    → ((v w : V) → eq v w ≡ true → v ≡ w)
    → (m n : IntDict V) → same_map eq m n ≡ true
    → m ≡ n
same_map_sound eq sound [] [] h = refl
same_map_sound eq sound [] (x ∷ n) h = cc
same_map_sound eq sound (x ∷ m) [] h = cc
same_map_sound eq sound ((j, v) ∷ m) ((k, w) ∷ n) h =
    ground (arith, sound v w, same_map_sound eq sound m n)

pub same_item_sound : (v w : Item) → same_item v w ≡ true → v ≡ w
same_item_sound (atom v) (atom w) h = ap atom (same_value_sound v w h)
same_item_sound (submap m) (submap n) h =
    ap submap (same_map_sound same_value same_value_sound m n h)
same_item_sound (atom v) (submap n) h = cc
same_item_sound (submap m) (atom w) h = cc

-- ===== src/Native/Values.antt =====
-- What `frame.get(name)` can return, as far as the validators look: `None`, a Boolean, an integer, a
-- text, or any other object. An object is known by its equality class; a float equal to an integer
-- compares like that integer, and is read as one.
use iicp_client_python.Prelude.{
  ℕ, Bool, true, false, String, Option, none, some, ℤ, pos, negsuc, str_eq, ◌==◌,
}
use iicp_client_python.Prelude.Dict
use iicp_client_python.Prelude.Dict.{Dict}

pub data Value : Type 0 where
  null : Value
  flag : Bool → Value
  int : ℤ → Value
  text : String → Value
  object : ℕ → Value

-- a missing key reads as `None`
abbrev pub value_or_null : Option Value → Value
value_or_null none = null
value_or_null (some v) = v

unfoldable pub field : Dict Value → String → Value
field d k = value_or_null (Dict.get d k)

abbrev pub int_eq : ℤ → ℤ → Bool
int_eq (pos a) (pos b) = a == b
int_eq (negsuc a) (negsuc b) = a == b
int_eq _ _ = false

abbrev pub of_flag : Bool → ℤ
of_flag true = pos 1
of_flag false = pos 0

-- `a == b` in Python, where `True == 1` and `False == 0`
abbrev pub value_eq : Value → Value → Bool
value_eq null null = true
value_eq (flag a) (flag b) = int_eq (of_flag a) (of_flag b)
value_eq (flag a) (int b) = int_eq (of_flag a) b
value_eq (int a) (flag b) = int_eq a (of_flag b)
value_eq (int a) (int b) = int_eq a b
value_eq (text a) (text b) = str_eq a b
value_eq (object a) (object b) = a == b
value_eq _ _ = false

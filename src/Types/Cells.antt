-- ===== src/Types/Cells.antt =====
-- Cells, records and columns of table data (frontend/src/types.ts).
-- A JavaScript number is the bit pattern of an IEEE 754 double, a natural number below 2 ^ 64.
use zszc_sql_client.Base.{
  ℕ, ◌/◌, ◌%◌, ◌^◌, String, Bool, true, false, not, ◌&&◌, ◌||◌, Option, eqb, ltb, ◌==◌,
}
use zszc_sql_client.Base.Dict.{Dict}

abbrev pub Double : Type 0
Double = ℕ

-- All exponent bits set, and a mantissa that is not zero.
unfoldable pub is_nan : Double → Bool
is_nan bits = eqb (bits / 2 ^ 52 % 2048) 2047 && ltb 0 (bits % 2 ^ 52)

-- Both zeros, whatever the sign bit.
unfoldable pub is_zero : Double → Bool
is_zero bits = eqb (bits % 2 ^ 63) 0

-- `===` on numbers.
unfoldable pub number_eq : Double → Double → Bool
unfolding is_nan is_zero
number_eq a b = not (is_nan a) && not (is_nan b) && (eqb a b || is_zero a && is_zero b)

pub data CellValue : Type 0 where
  text : String → CellValue
  number : Double → CellValue
  boolean : Bool → CellValue
  null : CellValue

abbrev bool_eq : Bool → Bool → Bool
bool_eq true b = b
bool_eq false b = not b

-- `===` on cells.
unfoldable pub strict_eq : CellValue → CellValue → Bool
unfolding number_eq
strict_eq (text s) (text t) = s == t
strict_eq (number a) (number b) = number_eq a b
strict_eq (boolean b) (boolean c) = bool_eq b c
strict_eq null null = true
strict_eq _ _ = false

abbrev pub JsonRecord : Type 0
JsonRecord = Dict CellValue

pub record TableDataColumn : Type 0 where
  pub name : String
  pub data_type : String
  pub nullable : Bool
  pub primary_key : Bool
  pub auto_increment : Bool
  pub default_value : Option String
  pub comment : String

pub record TableDataRow : Type 0 where
  pub row_key : Option JsonRecord
  pub values : JsonRecord

pub record TableColumn : Type 0 where
  pub name : String
  pub data_type : String
  pub full_data_type : String
  pub length : Option ℕ
  pub scale : Option ℕ
  pub nullable : Bool
  pub primary_key : Bool
  pub auto_increment : Bool
  pub default_value : Option String
  pub comment : String
  pub ordinal_position : ℕ

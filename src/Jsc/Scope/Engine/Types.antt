-- ===== src/Jsc/Scope/Engine/Types.antt =====
-- backend-jsc/src/sys.rs: the engine's types of values, `TYPE_UNDEFINED` to `TYPE_BIG_INT`.
use rust_jsi.Base.{ℕ}

abbrev pub undefined : ℕ
undefined = 0

abbrev pub null : ℕ
null = 1

abbrev pub boolean : ℕ
boolean = 2

abbrev pub number : ℕ
number = 3

abbrev pub string : ℕ
string = 4

abbrev pub object : ℕ
object = 5

abbrev pub symbol : ℕ
symbol = 6

abbrev pub big_int : ℕ
big_int = 7

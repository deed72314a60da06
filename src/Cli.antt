-- ===== src/Cli.antt =====
-- bzapi-cli/main.cpp: the command line client. A `Program` is code that uses the library, whose state
-- is `S`, and prints; it returns, throws, or the process ends in it. The library is the interface
-- `Api`, where `D` is the type of its databases. What boost, jsoncpp and the system give is in
-- `Console`, `Config` and `File`.
pub mod Options
pub mod Handlers
pub mod Commands
pub mod Main
pub mod Returns
pub mod Typed
pub mod Failures
pub mod Performs
pub mod Process
use bzapi.Base.{
  ℕ, ◌-◌, zero, suc, List, [], ◌∷◌, ◌++◌, Bool, true, false, Option, none, some, if◌then◌else◌,
  length, list_eq,
}
use bzapi.Base.Text.{Bytes, codes}
use bzapi.Base.Map.{Map, lookup}
use bzapi.Database.Replies.{Operation}

-- What is written to the standard output and to the standard error.
pub data Event : Type 0 where
  cout cerr : Bytes → Event

pub record World (S : Type 0) : Type 0 where
  pub library : S
  pub printed : List Event

pub data Ended (S A : Type 0) : Type 0 where
  returned : A → World S → Ended S A
  raised : Bytes → World S → Ended S A
  aborted : Ended S A

abbrev pub Program : Type 0 → Type 0 → Type 0
Program S A = World S → Ended S A

abbrev pub print : {S : Type 0} → Event → World S → World S
print e w = record w { printed = w.printed ++ (e ∷ []) }

abbrev pub continue : {S A B : Type 0} → Ended S A → (A → Program S B) → Ended S B
continue (returned a w) f = f a w
continue (raised what w) f = raised what w
continue aborted f = aborted

infixl 5 ◌>>=◌
abbrev pub ◌>>=◌ : {S A B : Type 0} → Program S A → (A → Program S B) → World S → Ended S B
(m >>= f) w = continue (m w) f

abbrev pub pure : {S A : Type 0} → A → World S → Ended S A
pure a w = returned a w

abbrev pub emit : {S : Type 0} → Event → World S → Ended S (Unit {0})
emit e w = returned tt (print e w)

abbrev pub raise : {S A : Type 0} → Bytes → World S → Ended S A
raise what w = raised what w

-- A call that changes the library, and one that reads it.
abbrev pub modify : {S : Type 0} → (S → S) → World S → Ended S (Unit {0})
modify f w = returned tt (record w { library = f w.library })

abbrev pub reads : {S A : Type 0} → (S → A) → World S → Ended S A
reads f w = returned (f w.library) w

-- The milliseconds that an operation took, as they are printed; the text of the options; and what the
-- exceptions of boost and of jsoncpp say.
pub record Console : Type 0 where
  pub elapsed : Bytes → Bytes
  pub description : Bytes
  pub bad_any_cast : Bytes
  pub json_error : Bytes

-- A value of `boost::program_options`: `flag` is that of an option that takes none.
pub data Value : Type 0 where
  string : Bytes → Value
  uint64 : ℕ → Value
  boolean : Bool → Value
  flag : Value

abbrev pub Vm : Type 0
Vm = Map Bytes Value

-- The JSON value that was read from the file; `none` where jsoncpp throws.
pub record Config : Type 0 where
  pub is_member : Bytes → Option Bool
  pub as_string : Bytes → Option Bytes
  pub as_uint64 : Bytes → Option ℕ

pub data File : Type 0 where
  unreadable malformed : Bytes → File
  holds : Config → File

-- The library, as the client uses it; `perform` stands for the methods of a database.
pub record Api (S D : Type 0) : Type 0 where
  pub set_timeout : ℕ → S → S
  pub set_logger : S → S
  pub initialize : Bytes → Bytes → Bytes → Bytes → Program S Bool
  pub terminate : S → S
  pub get_error_str : S → Bytes
  pub open_db : Bytes → Program S (Option D)
  pub create_db : Bytes → ℕ → Bool → Program S (Option D)
  pub has_db : Bytes → Program S Bool
  pub perform : D → Operation → Program S Bytes
  pub swarm_status : D → Program S Bytes

abbrev pub endl : Bytes
endl = codes "\n"

abbrev spaces : ℕ → Bytes
spaces zero = []
spaces (suc n) = b' ' ∷ spaces n

-- `std::setw(6)` in front of a text.
abbrev pub set_width : Bytes → Bytes
set_width s = spaces (6 - length s) ++ s

-- `my_logger`: with a severity, and without.
abbrev pub log_severity : {S : Type 0} → Bytes → Bytes → World S → Ended S (Unit {0})
log_severity severity message w =
    emit (cout (set_width severity ++ codes ": " ++ message ++ endl)) w

abbrev pub log : {S : Type 0} → Bytes → World S → Ended S (Unit {0})
log message w = emit (cout (message ++ endl)) w

abbrev pub is_set : Option Value → Bool
is_set none = false
is_set (some v) = true

unfoldable pub count : Vm → Bytes → Bool
unfolding lookup
count vm name = is_set (lookup name vm)

abbrev pub time_line : Console → Bytes → Event
time_line c op_name = cout (
    set_width (codes "time")
    ++ codes ": "
    ++ op_name
    ++ codes " "
    ++ c.elapsed op_name
    ++ codes "ms"
    ++ endl)

module _ {S : Type 0} (c : Console) where
  -- `as<T>()` of a value.
  abbrev pub cast_string : Option Value → Program S Bytes
  cast_string (some (string s)) = pure s
  cast_string other = raise c.bad_any_cast

  abbrev pub cast_uint64 : Option Value → Program S ℕ
  cast_uint64 (some (uint64 n)) = pure n
  cast_uint64 other = raise c.bad_any_cast

  abbrev pub cast_bool : Option Value → Program S Bool
  cast_bool (some (boolean b)) = pure b
  cast_bool other = raise c.bad_any_cast

  unfoldable pub as_string : Vm → Bytes → Program S Bytes
  unfolding lookup
  as_string vm name = cast_string (lookup name vm)

  pub as_uint64 : Vm → Bytes → Program S ℕ
  unfolding lookup
  as_uint64 vm name = cast_uint64 (lookup name vm)

  pub as_bool : Vm → Bytes → Program S Bool
  unfolding lookup
  as_bool vm name = cast_bool (lookup name vm)

  -- What jsoncpp gives.
  abbrev pub json : {A : Type 0} → Option A → Program S A
  json none = raise c.json_error
  json (some a) = pure a

  -- The destructor of a `scoped_timer`, which also runs when the scope is left by an exception.
  abbrev pub stop_timer : {A : Type 0} → Bool → Bytes → Ended S A → Ended S A
  stop_timer true op_name (returned a w) = returned a (print (time_line c op_name) w)
  stop_timer true op_name (raised what w) = raised what (print (time_line c op_name) w)
  stop_timer true op_name aborted = aborted
  stop_timer false op_name e = e

  -- `do_timing`, with the rest of the scope in which it stands.
  unfoldable pub do_timing : {A : Type 0} → Vm → Bytes → Program S A → World S → Ended S A
  unfolding count
  do_timing vm op_name scope w = stop_timer (count vm (codes "timing")) op_name (scope w)

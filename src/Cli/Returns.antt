-- ===== src/Cli/Returns.antt =====
-- bzapi-cli/main.cpp: programs that always return, and how they are put together.
use bzapi.Base.{◌≡◌, refl, ap, ◌∙◌, Bool, true, false, Option, none, some, if◌then◌else◌, list_eq}
use bzapi.Base.Text.{Bytes, codes}
use bzapi.Base.Map.{lookup}
use bzapi.Cli.{
  Program, World, returned, continue, ◌>>=◌, Console, Value, string, uint64, boolean, Vm, count,
  as_string, as_uint64, as_bool, stop_timer, do_timing, json,
}
use bzapi.Cli.Options.{Kind, is_string, is_uint64, is_boolean, kind_of, IsStored, present, absent}

-- From a library that has the property `I`, the program returns and leaves one that has it.
abbrev pub Returns : {S A : Type 0} → (S → Type 0) → Program S A → Type 0
Returns {S} {A} I m =
    (w : World S) → I w.library → (a : A) × (w1 : World S) × (m w ≡ returned a w1) × I w1.library

pub >>=-Returns :
    {S A B : Type 0} (I : S → Type 0) (m : Program S A) (f : A → Program S B)
    → Returns I m
    → ((a : A) → Returns I (f a))
    → Returns I (m >>= f)
>>=-Returns I m f first next w i =
    let (a, w1, e, i1) = first w i in
    let (b, w2, e2, i2) = next a w1 i1 in (b, w2, ap (λ x. continue x f) e ∙ e2, i2)

pub if-Returns :
    {S A : Type 0} (I : S → Type 0) (b : Bool) (m k : Program S A)
    → (b ≡ true → Returns I m)
    → (b ≡ false → Returns I k)
    → Returns I (if b then m else k)
if-Returns I true m k hm hk = hm refl
if-Returns I false m k hm hk = hk refl

module _ {S A : Type 0} (I : S → Type 0) (c : Console) where
  stop_timer-returned :
      (b : Bool) (op_name : Bytes) (a : A) (w : World S)
      → I w.library
      → (w1 : World S) × (stop_timer c b op_name (returned a w) ≡ returned a w1) × I w1.library
  stop_timer-returned true op_name a w i = (_, refl, i)
  stop_timer-returned false op_name a w i = (_, refl, i)

  pub do_timing-Returns :
      (vm : Vm) (op_name : Bytes) (scope : Program S A)
      → Returns I scope
      → Returns I (do_timing c vm op_name scope)
  unfolding do_timing
  do_timing-Returns vm op_name scope h w i =
      let (a, w1, e, i1) = h w i in
      let (w2, e2, i2) = stop_timer-returned (count vm (codes "timing")) op_name a w1 i1 in
      (a, w2, ap (stop_timer c (count vm (codes "timing")) op_name) e ∙ e2, i2)

  pub json-Returns : (o : Option A) (a : A) → o ≡ some a → Returns I (json {S = S} c o)
  json-Returns none a e w i = cc
  json-Returns (some b) a e w i = (b, w, refl, i)

abbrev Is : Vm → Bytes → Kind → Type 0
Is vm name kind = (v : Value) × (lookup name vm ≡ some v) × (kind_of v ≡ kind)

stored_value :
    (vm : Vm) (name : Bytes) (default : Option Value) (kind : Kind)
    → IsStored vm name kind default
    → count vm name ≡ true
    → Is vm name kind
unfolding count
stored_value vm name default kind (present v e k) h = (v, e, k)
stored_value vm name default kind (absent e d) h = absurd (no_value (rw e at h))
  where
    no_value : false ≡ true → ⊥
    no_value e = cc

-- An option that was stored with its type can be read as it.
module _ {S : Type 0} (I : S → Type 0) (c : Console) (vm : Vm) (name : Bytes)
    (default : Option Value) where
  pub as_string-Returns :
      IsStored vm name is_string default
      → count vm name ≡ true
      → Returns I (as_string {S = S} c vm name)
  unfolding as_string
  as_string-Returns stored h = reads_string (stored_value vm name default is_string stored h)
    where
      reads_string : Is vm name is_string → Returns I (as_string {S = S} c vm name)
      reads_string (string s, e, k) w i = (s, w, rw e refl, i)
      reads_string (uint64 n, e, k) w i = cc
      reads_string (boolean b, e, k) w i = cc
      reads_string (Value.flag, e, k) w i = cc

  pub as_uint64-Returns :
      IsStored vm name is_uint64 default
      → count vm name ≡ true
      → Returns I (as_uint64 {S = S} c vm name)
  unfolding as_uint64
  as_uint64-Returns stored h = reads_uint64 (stored_value vm name default is_uint64 stored h)
    where
      reads_uint64 : Is vm name is_uint64 → Returns I (as_uint64 {S = S} c vm name)
      reads_uint64 (uint64 n, e, k) w i = (n, w, rw e refl, i)
      reads_uint64 (string s, e, k) w i = cc
      reads_uint64 (boolean b, e, k) w i = cc
      reads_uint64 (Value.flag, e, k) w i = cc

  pub as_bool-Returns :
      IsStored vm name is_boolean default
      → count vm name ≡ true
      → Returns I (as_bool {S = S} c vm name)
  unfolding as_bool
  as_bool-Returns stored h = reads_bool (stored_value vm name default is_boolean stored h)
    where
      reads_bool : Is vm name is_boolean → Returns I (as_bool {S = S} c vm name)
      reads_bool (boolean b, e, k) w i = (b, w, rw e refl, i)
      reads_bool (string s, e, k) w i = cc
      reads_bool (uint64 n, e, k) w i = cc
      reads_bool (Value.flag, e, k) w i = cc

-- An option with a default is always there.
pub defaulted-count :
    (vm : Vm) (name : Bytes) (kind : Kind) (v : Value)
    → IsStored vm name kind (some v)
    → count vm name ≡ true
unfolding count
defaulted-count vm name kind v (present x e k) = rw e refl
defaulted-count vm name kind v (absent e d) = cc

-- ===== src/Vm/Types.antt =====
-- The data of virtual-stack-machine.h. A pointer is the number of the object, a `Datum *` the
-- number of a memory block with an offset counted in `Datum`s. `none` in a field of `Datum`
-- stands for a null or an indeterminate value, which the code may not use.
use cpp_custom.Prelude.{Bool, Bytes, List, Option, false, if◌then◌else◌, none, some, true, ℕ, ◌==◌}

pub data OpType : Type 0 where
  number name add assign return call : OpType

pub data AtomType : Type 0 where
  name number : AtomType

pub record Atom : Type 0 where
  pub type : AtomType
  pub nval : ℕ
  pub sval : Bytes

pub data SymbolType : Type 0 where
  argument variable property : SymbolType

pub data DatumType : Type 0 where
  undef number string function atom symbol : DatumType

pub record Addr : Type 0 where
  pub block : ℕ
  pub off : ℕ

abbrev pub addr : ℕ → ℕ → Addr
addr b o = record { block = b; off = o }

-- The `void *value` of a symbol's entry.
pub data EntryValue : Type 0 where
  null : EntryValue
  datum : Addr → EntryValue
  property : ℕ → EntryValue

pub record Symbol : Type 0 where
  pub type : SymbolType
  pub slot : Option ℕ
  pub next : Option ℕ
  pub scope : Option ℕ
  pub key : ℕ
  pub value : EntryValue

-- `nval` is a 64-bit pattern.
pub record Datum : Type 0 where
  pub type : DatumType
  pub nval : Option ℕ
  pub atom : Option ℕ
  pub sym : Option ℕ
  pub fun : Option ℕ

pub record Property : Type 0 where
  pub datum : Addr

pub record Scope : Type 0 where
  pub list : Option ℕ
  pub parent : Option ℕ

-- `code` holds the `length` bytes written so far, `limit` is the size of the buffer.
pub record Script : Type 0 where
  pub atoms : List ℕ
  pub args : Option ℕ
  pub code : List ℕ
  pub limit : ℕ

pub record Function : Type 0 where
  pub name : ℕ
  pub script : ℕ
  pub slink : ℕ

-- `down` is the rest of the machine's list of frames.
pub record Frame : Type 0 where
  pub argc : ℕ
  pub argv : Addr
  pub nvars : ℕ
  pub vars : Addr
  pub fun : ℕ
  pub scope : ℕ

-- The values of `enum class OP_TYPE`, and the cast back from a byte.
abbrev pub op_code : OpType → ℕ
op_code OpType.number = 0
op_code OpType.name = 1
op_code OpType.add = 2
op_code OpType.assign = 3
op_code OpType.return = 4
op_code OpType.call = 5

unfoldable pub to_op : ℕ → Option OpType
to_op b =
    if b == 0
    then some OpType.number
    else if b == 1
    then some OpType.name
    else if b == 2
    then some OpType.add
    else if b == 3
    then some OpType.assign
    else if b == 4
    then some OpType.return
    else if b == 5
    then some OpType.call
    else none

abbrev pub is_function : DatumType → Bool
is_function DatumType.function = true
is_function _ = false

abbrev pub is_undef : DatumType → Bool
is_undef DatumType.undef = true
is_undef _ = false

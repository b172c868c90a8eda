-- ===== src/Url/Parser/Sound.antt =====
-- What every round of the parser keeps.
use qjs_lws.Base.{ℕ, ◌+◌, ◌-◌, ◌*◌, ◌≤◌, ◌<◌, Option, none, some, arith}
use qjs_lws.Url.Record.{UrlRecord}
use qjs_lws.Url.Machine.{State, Machine, parsed, failed, threw, Step, go, halt, crash}

-- How many states may still follow.
abbrev pub room : State → ℕ
room State.scheme_start = 13
room State.scheme = 12
room State.no_scheme = 11
room State.special_relative_or_authority = 10
room State.path_or_authority = 10
room State.special_authority_slashes = 10
room State.file = 10
room State.relative = 9
room State.relative_slash = 8
room State.file_slash = 8
room State.special_authority_ignore_slashes = 7
room State.file_host = 7
room State.authority = 6
room State.host = 5
room State.hostname = 5
room State.port = 4
room State.path_start = 3
room State.path = 2
room State.opaque_path = 2
room State.query = 1
room State.fragment = 0

-- The states that read the base.
abbrev pub NeedsBase : State → Option UrlRecord → Type 0
NeedsBase State.special_relative_or_authority none = ⊥
NeedsBase State.relative none = ⊥
NeedsBase State.relative_slash none = ⊥
NeedsBase s base = Unit {0}

abbrev pub PortFits : Option ℕ → Type 0
PortFits none = Unit {0}
PortFits (some p) = p < 65536

abbrev pub BaseFits : Option UrlRecord → Type 0
BaseFits none = Unit {0}
BaseFits (some base) = PortFits base.port

-- What is left to do, for an input of `len` characters.
abbrev pub left : ℕ → State → ℕ → ℕ
left len s pointer = room s * (len + 2) + (len + 1 - pointer)

-- The step gets on, needs no base that is missing, and keeps the port in its range.
abbrev pub Sound : Option UrlRecord → (len bound : ℕ) → Step → Type 0
Sound base len bound (go m) =
    (left len m.state m.pointer < bound) × NeedsBase m.state base × PortFits m.url.port
Sound base len bound (halt (parsed url)) = PortFits url.port
Sound base len bound (halt (failed url)) = PortFits url.port
Sound base len bound (halt (threw e url)) = PortFits url.port
Sound base len bound crash = ⊥

-- What holds when a round begins.
pub record Running (base : Option UrlRecord) (len : ℕ) (m : Machine) : Type 0 where
  pub inside : m.pointer ≤ len
  pub port : PortFits m.url.port
  pub known : BaseFits base

pub room_le : (s : State) → room s ≤ 13
room_le State.scheme_start = omega arith
room_le s = omega arith

pub more_room : (a b n : ℕ) → a < b → a * n + n ≤ b * n
more_room a b n h = grind arith

-- A later state leaves less to do, wherever the pointer goes.
pub left-later : (len : ℕ) (s t : State) (p q : ℕ) → room t < room s → left len t q < left len s p
left-later len s t p q h = omega (arith, more_room (room t) (room s) (len + 2) h)

-- So does the same state with the pointer moved on.
pub left-next : (len : ℕ) (s : State) (p : ℕ) → p ≤ len → left len s (p + 1) < left len s p
left-next len s p h = omega arith

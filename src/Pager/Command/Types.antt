-- ===== src/Pager/Command/Types.antt =====
-- The data of src/pager/command.rs. A `usize` has 64 bits.
use mcp_repl.Prelude.{ℕ, Bool, false, Option, none, Chars}

pub record SearchPattern : Type 0 where
  pub pattern : Chars
  pub case_insensitive_ascii : Bool

pub data TailSpec : Type 0 where
  default : TailSpec
  bytes : ℕ → TailSpec
  lines : ℕ → TailSpec

pub data SeekSpec : Type 0 where
  offset : ℕ → SeekSpec
  percent : ℕ → SeekSpec
  line : ℕ → SeekSpec

pub record SearchFlags : Type 0 where
  pub case_insensitive_ascii : Bool
  pub context : Option ℕ
  pub n_value : Option Chars

-- `#[derive(Default)]`.
abbrev pub default_flags : SearchFlags
default_flags = record { case_insensitive_ascii = false; context = none; n_value = none }

pub record SearchArgs : Type 0 where
  pub pattern : Chars
  pub case_insensitive_ascii : Bool
  pub context : ℕ
  pub n_value : Option Chars

pub data SearchCountFlag : Type 0 where
  limit count : SearchCountFlag

pub record MatchSpec : Type 0 where
  pub pattern : Option SearchPattern
  pub limit : ℕ
  pub context : ℕ

pub record HitSpec : Type 0 where
  pub pattern : SearchPattern
  pub context : ℕ
  pub count : ℕ

pub data PagerCommand : Type 0 where
  next : ℕ → PagerCommand
  skip : ℕ → PagerCommand
  all : PagerCommand
  range : ℕ → ℕ → PagerCommand
  tail : TailSpec → PagerCommand
  search : SearchPattern → PagerCommand
  where_is : SearchPattern → PagerCommand
  matches : MatchSpec → PagerCommand
  hits : HitSpec → PagerCommand
  search_next : ℕ → PagerCommand
  search_prev : ℕ → PagerCommand
  goto : ℕ → PagerCommand
  seek : SeekSpec → PagerCommand
  help : PagerCommand
  quit : PagerCommand

-- The constants of src/pager/mod.rs.
abbrev pub default_match_limit : ℕ
default_match_limit = 50

abbrev pub max_match_limit : ℕ
max_match_limit = 500

abbrev pub default_match_context : ℕ
default_match_context = 0

abbrev pub max_match_context : ℕ
max_match_context = 5

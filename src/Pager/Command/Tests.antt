-- ===== src/Pager/Command/Tests.antt =====
-- Pager commands (src/pager/command.rs) on concrete input.
use mcp_repl.Prelude.{
  ℕ, ◌≡◌, ◌==◌, refl, true, false, none, some, Chars, codes, is_whitespace, trim_start_matches,
  trim_end_matches, trim_start, trim_end, trim, strip_prefix, strip_suffix_char, to_ascii_lowercase,
  split_whitespace_from, split_whitespace, is_digit, parse_digits, parse_u64,
}
use mcp_repl.Pager.Command.Types.{
  PagerCommand, SeekSpec, next, hits, range, seek, SearchCountFlag, default_flags,
}
use mcp_repl.Pager.Command.Tokens.{
  strip_trailing_newlines, split_at_whitespace, split_first_token, parse_number_token,
}
use mcp_repl.Pager.Command.Args.{
  flag_token, apply_flag, flag_step, search_flags_loop, parse_search_flags, match_context,
  parse_search_args, parse_hit_spec, split_once_dash, range_of, range_parts, parse_range_spec,
  split_unit, parse_seek_spec,
}
use mcp_repl.Pager.Command.Parse.{join_words, dispatch, parse_after_colon, parse}
use mcp_repl.Pager.Command.Bounds.{IsBounded, parse-IsBounded}
use mcp_repl.Pager.Command.Visible.{first_visible, parse-first_visible}
use mcp_repl.Pager.Command.Flags.{Ends, parse_search_flags-Ends}

abbrev hits_line : Chars
hits_line = codes " :hits -i -C 9 --count 3  needle \n"

abbrev hits_command : PagerCommand
hits_command = hits (record {
  pattern = record { pattern = codes "needle"; case_insensitive_ascii = true };
  context = 5;
  count = 3;
})

parse_hits : parse hits_line ≡ some hits_command
unfolding parse parse_after_colon dispatch parse_hit_spec parse_search_args parse_search_flags
    search_flags_loop flag_step apply_flag flag_token match_context split_first_token
    split_at_whitespace parse_number_token strip_trailing_newlines strip_suffix_char strip_prefix
    trim trim_start trim_end trim_start_matches trim_end_matches is_whitespace split_whitespace
    split_whitespace_from parse_u64 parse_digits is_digit
parse_hits = refl

parse-IsBounded_example : IsBounded hits_command
parse-IsBounded_example = parse-IsBounded hits_line parse_hits

parse_range : parse (codes ":range 3-12") ≡ some (range 3 12)
unfolding parse parse_after_colon dispatch parse_range_spec range_parts range_of split_once_dash
    strip_trailing_newlines strip_suffix_char strip_prefix trim trim_start trim_end
    trim_start_matches trim_end_matches is_whitespace split_whitespace split_whitespace_from
    parse_u64 parse_digits is_digit
parse_range = refl

parse_seek : parse (codes ":seek @ 2K") ≡ some (seek (SeekSpec.offset 2048))
unfolding parse parse_after_colon dispatch parse_seek_spec split_unit join_words to_ascii_lowercase
    strip_trailing_newlines strip_suffix_char strip_prefix trim trim_start trim_end
    trim_start_matches trim_end_matches is_whitespace split_whitespace split_whitespace_from
    parse_u64 parse_digits is_digit
parse_seek = refl

parse-first_visible_example :
    (first_visible (codes "  1 + 1") ≡ none → parse (codes "  1 + 1") ≡ some (next 1))
    × ((c : ℕ)
        → first_visible (codes "  1 + 1") ≡ some c
        → (c == b':') ≡ false
        → parse (codes "  1 + 1") ≡ none)
parse-first_visible_example = parse-first_visible (codes "  1 + 1")

parse_search_flags-Ends_example :
    Ends
      (codes "--limit")
      default_flags
      (trim_start hits_line)
      (parse_search_flags hits_line SearchCountFlag.limit)
parse_search_flags-Ends_example = parse_search_flags-Ends hits_line SearchCountFlag.limit

-- ===== src/Tests/Text.antt =====
-- Error texts.
use bitcoin_query_py.Common.{String, none, some, ◌≡◌, refl, ◌↔◌}
use bitcoin_query_py.Errors.{
  IoError, unexpected_eof, raw_os, not_found, invalid_input, OpError, runtime_error, new, join_msg,
  from_str, from_io,
}
use bitcoin_query_py.Errors.Display.{fmt_error, Returns, SelfFormatting, fmt_error-Returns_iff}

abbrev io_text : IoError → String
io_text unexpected_eof = "failed to fill whole buffer"
io_text not_found = "not found"
io_text invalid_input = "invalid input"
io_text (raw_os _) = "os error"

abbrev no_blk_files : OpError
no_blk_files = join_msg (new runtime_error) "No blk files found!"

short_read :
    fmt_error io_text 1 (from_io unexpected_eof) ≡ some "I/O Error: failed to fill whole buffer"
unfolding fmt_error
short_read = refl

no_height : fmt_error io_text 1 (from_str "height not found") ≡ some "height not found "
unfolding fmt_error
no_height = refl

never_shown : fmt_error io_text 100 no_blk_files ≡ none
unfolding fmt_error
never_shown = refl

fmt_error-Returns_iff_example : Returns io_text no_blk_files ↔ (¬ SelfFormatting runtime_error)
fmt_error-Returns_iff_example = fmt_error-Returns_iff io_text no_blk_files

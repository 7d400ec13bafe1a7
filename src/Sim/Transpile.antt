-- ===== src/Sim/Transpile.antt =====
-- `_transpile`: the translation of a contestant's Python to JavaScript.
pub mod Scan
pub mod Blocks
pub mod Lines
pub mod Tree
pub mod Braces
pub mod Balance
pub mod Whole
use vidhi_trading_platform.Prelude.{String, split, join, List, [], ◌∷◌, map, reverse}
use vidhi_trading_platform.Sim.Transpile.Scan.{
  replace_every, replace_first_from, quoted, decorator, from_import, plain_import, on_tick_def,
}
use vidhi_trading_platform.Sim.Transpile.Blocks.{print_lines, piece_text}
use vidhi_trading_platform.Sim.Transpile.Lines.{read_line}

-- Step 0: no doc strings, decorators, imports or head of `on_tick`.
unfoldable pub strip : String → String
unfolding replace_every replace_first_from
strip raw =
    let s1 = replace_every (quoted "\"\"\"") "" raw in
    let s2 = replace_every (quoted "'''") "" s1 in
    let s3 = replace_every decorator "" s2 in
    let s4 = replace_every from_import "" s3 in
    let s5 = replace_every plain_import "" s4 in
    replace_first_from on_tick_def "/* on_tick */" "" s5

-- `_transpile`
unfoldable pub transpile : String → String
unfolding strip split join read_line print_lines piece_text
transpile raw =
    join "\n" (map piece_text (reverse (print_lines (map read_line (split "\n" (strip raw))))))

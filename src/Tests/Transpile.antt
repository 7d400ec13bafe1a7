-- ===== src/Tests/Transpile.antt =====
-- The transpiler on the code that the editor starts with, and on code that it does not keep.
use vidhi_trading_platform.Prelude.{
  List, ℕ, Option, none, some, join, reverse, ◌≡◌, refl, ◌+◌, String, [], ◌∷◌, map, split, arith,
}
use vidhi_trading_platform.Sim.Transpile.{strip, transpile}
use vidhi_trading_platform.Sim.Transpile.Blocks.{
  at_start, opener, statement, opened, closed, plain, top, close_to, on_lines, print_lines,
  piece_text,
}
use vidhi_trading_platform.Sim.Transpile.Lines.{read_line}
use vidhi_trading_platform.Sim.Transpile.Tree.{
  Code, done, gap, simple, block, ended, then_simple, follow, lines_of, braced, preface_lines,
  preface_pieces,
}
use vidhi_trading_platform.Sim.Transpile.Whole.{transpile-braced}
use vidhi_trading_platform.Sim.Transpile.Balance.{
  openings, closings, unopened, total, print_lines_balance, on_lines_shallow,
}

-- As the editor has it, in fewer words.
abbrev default_code : String
default_code =
    "def on_tick(state, orders):\n    \"\"\"\n    A simple strategy\n    \"\"\"\n    # Buy\n    if state.mid < 0.5 and not x:\n        if state.position < 100: # room\n            orders.market_buy(int (10))\n            \n    # Sell\n    elif state.mid > 1:\n        orders.market_sell(1)\n    x = True\n"

default_script :
    transpile default_code
    ≡ "/* on_tick */\n\n\n    if (state.mid < 0.5 && ! x) {\n        if (state.position < 100) {\n            orders.market_buy(Math.trunc(10));\n\n\n        }\n} else if (state.mid > 1) {\n        orders.market_sell(1);\n}\n    x = true;\n"
unfolding transpile
default_script = refl

-- Loops, a call that is left out, and the lines of an exception.
loops :
    transpile "for i in range(3):\n    print(abs(i))\ntry:\n    y = round (z)\nexcept:\n    pass"
    ≡ "for (let i = 0; i < 3; i++) {\n    /* print(Math.abs(i)) */\n}\ntry {\n    y = Math.round(z);\n} catch(_e) {\n    pass;\n}"
unfolding transpile
loops = refl

-- A range of two bounds is no range.
two_bounds :
    transpile "for i in range(1, n):\n    f(i)" ≡ "for (const i of range(1, n)) {\n    f(i);\n}"
unfolding transpile
two_bounds = refl

-- The length of a list is 0, with a bracket too many.
no_length : transpile "n = len(xs)" ≡ "n = /* len( */0 /* ) */xs);"
unfolding transpile
no_length = refl

-- A condition in brackets with no blank before it is put after another `if`.
two_ifs : transpile "if(x):\n    f(x)" ≡ "if (if(x)) {\n    f(x);\n}"
unfolding transpile
two_ifs = refl

-- What stands on the line of an `else` is dropped.
dropped : transpile "if x:\n    y = 1\nelse: y = 2" ≡ "if (x) {\n    y = 1;\n} else {\n}"
unfolding transpile
dropped = refl

-- A body of two spaces is outside its block.
emptied : transpile "if x:\n  buy()" ≡ "if (x) {\n}\n  buy();"
unfolding transpile
emptied = refl

-- An operator of text inside quotes is translated too.
quotes : transpile "s = \"buy and hold\"" ≡ "s = \"buy && hold\";"
unfolding transpile
quotes = refl

-- The lines of the code below, as they are read, are those of its blocks.
abbrev two_blocks : Code
two_blocks = simple "x = 1;" (
    block "if (x > 0) {" (block "while (y) {" (simple "f();" done) ended)
      (follow "else {" (simple "g();" done) (then_simple "h();" done)))

read_two_blocks :
    map read_line (split "\n" "x = 1\nif x > 0:\n    while y:\n        f()\nelse:\n    g()\nh()")
    ≡ lines_of 0 0 two_blocks
unfolding read_line split lines_of
read_two_blocks = refl

-- The code that the editor starts with, by its blocks.
abbrev default_blocks : Code
default_blocks =
    block "if (state.mid < 0.5 && ! x) {"
      (block "if (state.position < 100) {"
        (simple "orders.market_buy(Math.trunc(10));" (gap 12 (gap 4 done))) ended)
      (follow "else if (state.mid > 1) {" (simple "orders.market_sell(1);" done)
        (then_simple "x = true;" (gap 0 done)))

abbrev default_head : List (ℕ × Option String)
default_head = (0, some "/* on_tick */") ∷ (4, none) ∷ (4, none) ∷ []

transpile-braced_example :
    transpile default_code
    ≡ join "\n"
        (map piece_text (reverse (braced 4 0 default_blocks (preface_pieces default_head []))))
unfolding read_line split strip lines_of preface_lines
transpile-braced_example = transpile-braced default_code 4 default_head default_blocks refl

print_lines_balance_example :
    let out = print_lines (map read_line (split "\n" "def f():\n    pass\nelse:\n    g()")) in
    total closings out ≡ total openings out + total unopened out
print_lines_balance_example =
    print_lines_balance (map read_line (split "\n" "def f():\n    pass\nelse:\n    g()"))

one_too_many : total unopened (print_lines (map read_line (split "\n" "def f():\n    pass"))) ≡ 1
unfolding total unopened print_lines read_line split
one_too_many = refl

on_lines_shallow_example :
    let r = close_to 4 at_start.stack at_start.out in
    (on_lines ((4, opener "if (x) {") ∷ (6, statement "buy();") ∷ []) at_start).out
    ≡ plain 6 "buy();" ∷ closed (top r.stack) ∷ opened 4 "if (x) {" ∷ r.out
on_lines_shallow_example =
    on_lines_shallow 4 6 "if (x) {" "buy();" at_start (omega arith) (omega arith)

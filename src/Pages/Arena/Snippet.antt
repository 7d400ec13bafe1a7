-- ===== src/Pages/Arena/Snippet.antt =====
-- The lines of an execution log that an alert of the editor's page shows.
use vidhi_trading_platform.Prelude.{
  ℕ, ◌-◌, ◌==◌, Bool, ◌||◌, not, String, ◌+++◌, str_eq, includes, split, join, trim, letters,
  to_lower, List, map, length, drop, filter_by, Option, some, none, if◌then◌else◌,
}

-- `xs.slice(-n)`
abbrev pub last_of : ℕ → List String → List String
last_of n xs = drop (length xs - n) xs

-- The words that make a line of interest.
unfoldable pub is_of_interest : String → Bool
unfolding to_lower
is_of_interest l =
    let s = to_lower letters l in
    includes s "error"
    || (includes s "failed"
        || (includes s "exception"
            || (includes s "mmap"
                || (includes s "exit" || (includes s "cannot" || includes s "could not")))))

-- `t.split('\n').map(l => l.trim()).filter(Boolean)`
unfoldable pub log_lines : String → List String
unfolding split trim
log_lines t = filter_by (λ l. not (str_eq l "")) (map trim (split "\n" t))

-- The lines of the snippet.
unfoldable pub snippet_lines : List String → List String
unfolding is_of_interest
snippet_lines lines =
    let interest = filter_by is_of_interest lines in
    if length interest == 0 then last_of 8 lines else last_of 5 interest

-- `finalMsg`, and the message alone where the log was not answered.
unfoldable pub alert_text : String → Option String → String
unfolding snippet_lines log_lines join
alert_text message none = message
alert_text message (some log) =
    let snippet = join "\n" (snippet_lines (log_lines log)) in
    if str_eq snippet "" then message else message +++ "\n\nExecution Log Snippet:\n" +++ snippet

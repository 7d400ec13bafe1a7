-- ===== src/Tests/Client.antt =====
-- A poll of a server that fails once, reports a run that goes on, and then one that is complete; and a
-- websocket that is lost.
use vidhi_trading_platform.Prelude.{
  ℕ, zero, suc, ◌*◌, false, true, List, [], ◌∷◌, some, ◌≡◌, refl, pos, arith, String,
}
use vidhi_trading_platform.Client.Http.{Response, rejected, ok, read}
use vidhi_trading_platform.Client.Poll.{
  RunInfo, PollEnv, Polled, finished, poll_run_until_done, is_returned,
}
use vidhi_trading_platform.Client.Poll.Ends.{IsEnd, poll_ends, poll_finishes}
use vidhi_trading_platform.Client.Socket.{
  SocketReach, start, next, ends, open_socket, on_close, connect,
}
use vidhi_trading_platform.Client.Socket.Alive.{IsAlive, SocketReach-IsAlive}

abbrev pub run : String → RunInfo
run status = record {
  run_id = "r";
  status = status;
  total_ticks = 10;
  pnl = pos 0;
  pnl_pct = pos 0;
  tle_count = 0;
}

abbrev answer : ℕ → Response RunInfo
answer zero = rejected "Failed to fetch"
answer (suc zero) = ok (run "running")
answer (suc (suc n)) = ok (run "complete")

abbrev server : PollEnv
server = record { elapsed = λ i. i * 2000; answer = answer; throws = λ r. false; show = λ n. "" }

reported :
    poll_run_until_done 5 server
    ≡ some (run "running" ∷ run "complete" ∷ [], finished (run "complete"))
unfolding poll_run_until_done read is_returned
reported = refl

poll_ends_example :
    (end : Polled) × (runs : List RunInfo) × (poll_run_until_done 301 server ≡ some (runs, end))
    × IsEnd server runs end
poll_ends_example = poll_ends server 2000 300 (λ i. omega arith) (omega arith)

poll_finishes_example :
    (last : RunInfo) × (runs : List RunInfo) × (poll_run_until_done 4 server
      ≡ some (runs, finished last))
    × IsEnd server runs (finished last)
unfolding read
poll_finishes_example =
    poll_finishes server 3 (run "complete") (λ i. omega arith) refl refl (omega arith) refl

live : open_socket.live ≡ true
unfolding open_socket connect
live = refl

lost : SocketReach (on_close open_socket)
lost = next start (ends open_socket live)

SocketReach-IsAlive_example : IsAlive (on_close open_socket)
SocketReach-IsAlive_example = SocketReach-IsAlive lost

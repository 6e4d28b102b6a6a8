-- ===== src/Examples/Pool.antt =====
-- Tests of the Stratum client on the lines of a pool, and its theorems on them.
use scrig.Base.{List, true, false, none, some, [], ◌∷◌, ◌++◌, replicate, ◌≡◌, refl}
use scrig.Base.Bytes.{Bytes, bytes_eq, codes}
use scrig.Base.Action.{value}
use scrig.Codec.{object_of}
use scrig.Json.{JsonValue, null, string, uint64, object, find_field, is_null}
use scrig.Json.Text.{decimal}
use scrig.Json.Parser.{parse_json, emplace}
use scrig.Json.Printer.{to_json}
use scrig.Stratum.{parse_hex}
use scrig.Stratum.Text.{
  assign, find_string, find_object, parse_json_rpc_id, json_has_error, parse_target_prefix_le,
}
use scrig.Stratum.Network.{Arrival, silence, received, line, line_loop, scan}
use scrig.Stratum.Network.Lines.{upcoming, Reads, line_loop_lem}
use scrig.Stratum.Job.{StratumJob, parse_job_from_message}
use scrig.Stratum.Job.Accepted.{IsAccepted, parse_job_from_message-IsAccepted}
use scrig.Stratum.Client.{
  unknown, login_submit, StratumClient, send_request, request_response, request_response_or_job,
  poll_job,
}
use scrig.Stratum.Client.Reply.{respond, lines_now, Matches}
use scrig.Stratum.Client.Reply.Found.{request_response-Matches}
use scrig.Stratum.Client.Answers.{
  Gives, IsReplyTo, IsReplyOrJob, IsFront, request_response-Gives, poll_job-IsFront,
}
use scrig.Stratum.Login.{login}
use scrig.Stratum.Login.Ready.{MakesReady, login-MakesReady}
use scrig.Stratum.Submit.{judged, submit_attempts, submit_share}
use scrig.Stratum.Submit.Fate.{IsFate, submit_share-IsFate}
use scrig.Examples.{no_doubles}

-- The reply to a log-in in two chunks, and the reply to a share.
abbrev login_reply : Bytes
login_reply =
    codes
      "{\"id\":1,\"error\":null,\"result\":{\"id\":\"s1\",\"job\":{\"job_id\":\"7\",\"target\":\"b88d0600\",\"blob\":\""
    ++ codes
        "00000000000000000000000000000000000000000000000000000000000000000000000000000000000000000000\"}}}\n"

abbrev share_reply : Bytes
share_reply = codes "{\"id\":2,\"result\":{\"status\":\"OK\"}}\n"

abbrev pool : StratumClient
pool = record {
  socket = some (record {
    sends = 10 ∷ 3 ∷ [];
    arrivals =
        received (codes " \n{\"method\":\"keepalive\"}\n")
        ∷ received login_reply
        ∷ received share_reply
        ∷ [];
    sent = [];
  });
  connections = [];
  next_request_id = 1;
  mode = unknown;
  session_id = none;
  difficulty = none;
  queued_jobs = [];
  rx_buffer = [];
}

abbrev agent : Bytes
agent = codes "scrig/1"

login_returns : (login no_doubles agent (codes "wallet") (codes "x") pool).0 ≡ value tt
unfolding login to_json assign find_field object_of emplace bytes_eq parse_json find_string
    parse_job_from_message find_object parse_json_rpc_id json_has_error is_null
login_returns = refl

-- A nonce that would lie behind the end of the blob, by an offset whose test wraps.
abbrev wide_message : JsonValue
wide_message = object (
    object_of (
      (codes "method", string (codes "job"))
      ∷ (
        codes "params",
        object (
            object_of (
              (codes "blob", string (codes "0a0b0c0d"))
              ∷ (codes "job_id", string (codes "9"))
              ∷ (codes "nonce_offset", uint64 4294967295)
              ∷ (codes "target", string (codes "ffffff00"))
              ∷ [])),
      )
      ∷ []))

abbrev wide_job : StratumJob
wide_job = record {
  job_id = codes "9";
  blob = 10 ∷ 11 ∷ 12 ∷ 13 ∷ [];
  nonce_offset = 4294967295;
  target_le = 16777215;
  target_be = replicate 32 0;
  has_target_be = false;
  height = 0;
  clean_jobs = false;
}

-- The same pool once the log-in is done.
abbrev logged_in : StratumClient
logged_in = record pool {
  socket = some (record { sends = []; arrivals = received share_reply ∷ []; sent = [] });
  next_request_id = 2;
  mode = login_submit;
  session_id = some (codes "s1");
  queued_jobs = wide_job ∷ [];
}

submit_share_judged :
    (submit_share no_doubles
      (codes "wallet")
      (codes "7")
      (codes "01020304")
      (codes "ff")
      logged_in).0
    ≡ value (judged true)
unfolding submit_share to_json assign find_field object_of emplace bytes_eq parse_json find_string
    parse_job_from_message find_object parse_json_rpc_id json_has_error is_null request_response
submit_share_judged = refl

wide_message_accepted : parse_job_from_message no_doubles wide_message none ≡ some wide_job
unfolding parse_job_from_message find_field object_of emplace bytes_eq find_string find_object
    parse_hex parse_target_prefix_le
wide_message_accepted = refl

parse_job_from_message-IsAccepted_example : IsAccepted wide_job
parse_job_from_message-IsAccepted_example =
    parse_job_from_message-IsAccepted no_doubles wide_message none wide_job wide_message_accepted

-- A line in two chunks, with the start of another behind it.
abbrev halves : List Arrival
halves = received (codes " \n{\"id\"") ∷ received (codes ":1}\r\n{") ∷ silence ∷ []

line_loop-halves : line_loop halves [] ≡ (line (codes "{\"id\":1}"), silence ∷ [], codes "{")
unfolding line_loop scan
line_loop-halves = refl

line_loop_lem_example :
    Reads
      (scan (upcoming halves) [])
      (line_loop halves []).0
      (line_loop halves []).1
      (line_loop halves []).2
line_loop_lem_example = line_loop_lem halves []

-- The request goes out in pieces of ten and of three bytes, and the rest.
login_sent : (send_request no_doubles (codes "login") null true pool).0 ≡ value 1
unfolding send_request to_json assign find_field object_of emplace bytes_eq
login_sent = refl

request_response-Matches_example :
    Matches
      (respond no_doubles (decimal 1) (lines_now pool) none [])
      (request_response no_doubles (codes "login") null true pool)
request_response-Matches_example =
    request_response-Matches no_doubles (codes "login") null true pool login_sent

request_response-Gives_example :
    Gives (IsReplyTo (decimal 1)) [] (request_response no_doubles (codes "login") null true pool)
    × Gives
        (IsReplyOrJob (decimal 1))
        []
        (request_response_or_job no_doubles (codes "login") null true pool)
request_response-Gives_example = request_response-Gives no_doubles (codes "login") null true pool

poll_job-IsFront_example : IsFront (wide_job ∷ []) (poll_job no_doubles logged_in)
poll_job-IsFront_example = poll_job-IsFront no_doubles logged_in

login-MakesReady_example : MakesReady (login no_doubles agent (codes "wallet") (codes "x") pool)
login-MakesReady_example = login-MakesReady no_doubles agent (codes "wallet") (codes "x") pool

submit_share-IsFate_example :
    IsFate no_doubles
      (submit_attempts
        (codes "wallet")
        (codes "7")
        (codes "01020304")
        (codes "ff")
        login_submit
        (codes "s1"))
      logged_in
      (submit_share no_doubles
        (codes "wallet")
        (codes "7")
        (codes "01020304")
        (codes "ff")
        logged_in)
submit_share-IsFate_example =
    submit_share-IsFate no_doubles (codes "wallet") (codes "7") (codes "01020304") (codes "ff")
      logged_in

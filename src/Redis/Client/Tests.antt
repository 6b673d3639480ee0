-- ===== src/Redis/Client/Tests.antt =====
-- Runs of a client, and the theorems on clients at them.
use samaritan.Prelude.{
  ◌<◌, ◌≤◌, ◌≡◌, refl, true, false, some, [], ◌∷◌, bytes, bytes_equal, All, arith,
}
use samaritan.Redis.Resp.{RespValue, new_simple_string, new_error}
use samaritan.Redis.Request.ReadOnly.{to_lower}
use samaritan.Redis.Client.Defs.{
  Client, new_client, encoded, here, send_checked, send_queued, write_take, write_encoded,
  write_queued, write_drops, read_reply, read_handled, stopped, Reach, at_start, after, replied,
  handle_resp, redirects, responds, cluster_down, error_prefix,
}
use samaritan.Redis.Client.Order.{Answers, replies_in_order}
use samaritan.Redis.Client.Once.{times, held, requests, sent, sent_is_held}
use samaritan.Redis.Client.Stop.{join, dropped, dropped_unanswered, IsStuck, stuck-never_done}

moved : handle_resp (new_error (bytes "MOVED 3999 127.0.0.1:6381")) ≡ redirects
unfolding handle_resp to_lower error_prefix bytes_equal
moved = refl

down : handle_resp (new_error (bytes "CLUSTERDOWN The cluster is down")) ≡ cluster_down
unfolding handle_resp to_lower error_prefix bytes_equal
down = refl

plain : handle_resp (new_error (bytes "ERR")) ≡ responds
unfolding handle_resp to_lower error_prefix bytes_equal
plain = refl

abbrev ok_reply : RespValue
ok_reply = new_simple_string (bytes "OK")

abbrev queued : Client
queued = record new_client { pending = 7 ∷ [] }

abbrev written : Client
written = record new_client { holding = encoded 7; wire = 7 ∷ [] }

-- Request 7 is sent and written out.
to_written : Reach new_client written
unfolding new_client
to_written =
    after
      (after (after (after at_start (send_checked 7 refl)) (send_queued 7 [] here (omega arith)))
        (write_take 7 [] refl refl refl))
      (write_encoded 7 refl)

-- It is answered.
abbrev answered : Client
answered = record new_client { wire = 7 ∷ []; read = 1; handled = (7, replied 0 ok_reply) ∷ [] }

to_answered : Reach new_client answered
unfolding new_client
to_answered =
    after
      (after (after to_written (write_queued 7 refl (omega arith)))
        (read_reply ok_reply refl refl (omega arith)))
      (read_handled 7 ok_reply [] refl refl)

replies_in_order_example : All (Answers (7 ∷ [])) ((7, replied 0 ok_reply) ∷ [])
unfolding new_client
replies_in_order_example = replies_in_order to_answered

sent_is_held_example :
    (held 7 answered ≡ times 7 (sent to_answered))
    × (times 7 (requests answered.handled) ≤ times 7 (sent to_answered))
sent_is_held_example = sent_is_held 7 to_answered

-- Stop is called before the writer queues the request; the reader has decoded its reply.
abbrev stopping : Client
stopping = record written { quit = true; reply = some ok_reply }

to_stopping : Reach new_client stopping
unfolding new_client
to_stopping = after (after to_written (read_reply ok_reply refl refl (omega arith))) stopped

dropped_unanswered_example :
    times 7 (requests (dropped 7 stopping).handled)
    < times 7 (sent (join (after to_stopping (write_drops 7 refl refl)) at_start))
dropped_unanswered_example = dropped_unanswered 7 to_stopping refl refl at_start

is_stuck : IsStuck ok_reply (dropped 7 stopping)
unfolding new_client
is_stuck = record {
  has_reply = refl;
  is_reading = refl;
  not_writing = refl;
  holds_nothing = refl;
  none_waiting = refl;
  not_done = refl;
}

stuck-never_done_example :
    ((dropped 7 stopping).done ≡ false)
    × ((dropped 7 stopping).reply ≡ some ok_reply)
    × ((dropped 7 stopping).processing ≡ [])
stuck-never_done_example = stuck-never_done is_stuck at_start

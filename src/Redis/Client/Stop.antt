-- ===== src/Redis/Client/Stop.antt =====
-- What a stop can leave behind: a request that is dropped, and a reader that never returns.
use samaritan.Prelude.{ℕ, ◌<◌, ◌≤◌, ◌≡◌, true, false, some, [], ◌∷◌, arith}
use samaritan.Redis.Resp.{RespValue}
use samaritan.Redis.Client.Defs.{
  nothing, encoded, Client, new_client, Step, send_refused, send_checked, send_queued, write_take,
  write_filtered, write_encoded, encode_failed, flush_failed, write_queued, write_quits,
  write_drops, read_reply, read_handled, read_failed, stopped, drain_pending, drain_processing,
  drained, Reach, at_start, after,
}
use samaritan.Redis.Client.Once.{times, requests, sent, sent_is_held}

abbrev pub join : {c d e : Client} → Reach c d → Reach d e → Reach c e
join r at_start = r
join r (after s t) = after (join r s) t

lost-le : (a : ℕ) {c d : Client} → Step c d → times a c.lost ≤ times a d.lost
lost-le a (write_drops q h k) = omega arith
lost-le a _ = omega arith

lost_after : (a : ℕ) {c d : Client} → Reach c d → times a c.lost ≤ times a d.lost
lost_after a at_start = omega arith
lost_after a (after r s) = omega (arith, lost_after a r, lost-le a s)

-- The client after its writer, with q encoded and not yet queued, returned because of a stop.
abbrev pub dropped : ℕ → Client → Client
dropped q c = record c { holding = nothing; writing = false; lost = q ∷ c.lost }

-- When the writer returns between writing a request out and queueing it, in every later state the
-- request has been answered fewer times than it was sent: one call of Send has no response for ever.
pub dropped_unanswered :
    (q : ℕ) {c d : Client} (r : Reach new_client c) (h : c.holding ≡ encoded q) (k : c.quit ≡ true)
    (s : Reach (dropped q c) d)
    → times q (requests d.handled) < times q (sent (join (after r (write_drops q h k)) s))
dropped_unanswered q {c} {d} r h k s =
    omega (arith, sent_is_held q (join (after r (write_drops q h k)) s), lost_after q s, self)
  where
    self : 0 < times q (q ∷ c.lost)
    self = ground arith

-- The reader has a reply in hand, the writer has returned, and no request waits.
pub record IsStuck (v : RespValue) (c : Client) : Type 0 where
  pub has_reply : c.reply ≡ some v
  pub is_reading : c.reading ≡ true
  pub not_writing : c.writing ≡ false
  pub holds_nothing : c.holding ≡ nothing
  pub none_waiting : c.processing ≡ []
  pub not_done : c.done ≡ false

Step-IsStuck : {v : RespValue} {c d : Client} → Step c d → IsStuck v c → IsStuck v d
Step-IsStuck (send_refused q h) s = ground arith
Step-IsStuck (send_checked q h) s = ground arith
Step-IsStuck (send_queued q rest p l) s = ground arith
Step-IsStuck (write_take q rest w n p) s = cc (w, s.not_writing)
Step-IsStuck (write_filtered q h) s = cc (h, s.holds_nothing)
Step-IsStuck (write_encoded q h) s = cc (h, s.holds_nothing)
Step-IsStuck (encode_failed q h) s = cc (h, s.holds_nothing)
Step-IsStuck (flush_failed q h) s = cc (h, s.holds_nothing)
Step-IsStuck (write_queued q h l) s = cc (h, s.holds_nothing)
Step-IsStuck (write_quits w n h) s = cc (w, s.not_writing)
Step-IsStuck (write_drops q h k) s = cc (h, s.holds_nothing)
Step-IsStuck (read_reply x r n l) s = cc (n, s.has_reply)
Step-IsStuck (read_handled q x rest e p) s = cc (p, s.none_waiting)
Step-IsStuck (read_failed r n) s = cc (n, s.has_reply)
Step-IsStuck stopped s = ground arith
Step-IsStuck (drain_pending q rest r w d p) s = cc (r, s.is_reading)
Step-IsStuck (drain_processing q rest r w d p) s = cc (r, s.is_reading)
Step-IsStuck (drained r w p k) s = cc (r, s.is_reading)

Reach-IsStuck : {v : RespValue} {c d : Client} → Reach c d → IsStuck v c → IsStuck v d
Reach-IsStuck at_start s = s
Reach-IsStuck (after r t) s = Step-IsStuck t (Reach-IsStuck r s)

-- Once the writer has returned while the reader holds a reply and no request waits for it, no further
-- step of anyone changes that or ends the client: `done`, which Stop waits for, is never closed.
pub stuck-never_done :
    {v : RespValue} {c d : Client}
    → IsStuck v c
    → Reach c d
    → (d.done ≡ false) × (d.reply ≡ some v) × (d.processing ≡ [])
stuck-never_done s r = let k = Reach-IsStuck r s in (k.not_done, k.has_reply, k.none_waiting)

-- ===== src/Redis/Session/Tests.antt =====
-- A run of a session in which the second request is answered before the first.
use samaritan.Prelude.{
  ℕ, ◌≡◌, refl, none, some, Option, [], ◌∷◌, length, All, ◌==◌, if◌then◌else◌, arith,
}
use samaritan.Redis.Resp.{RespValue, new_simple_string}
use samaritan.Prelude.{bytes}
use samaritan.Redis.Session.Defs.{
  Session, new_session, decoded, queued, responded, took, wrote, Reach, start, next,
}
use samaritan.Redis.Session.Order.{numbers, requests, IsResponse, responses_in_order}

abbrev pong : RespValue
pong = new_simple_string (bytes "PONG")

abbrev ok : RespValue
ok = new_simple_string (bytes "OK")

abbrev second : ℕ → Option RespValue
second q = if q == 1 then some ok else none

abbrev both : ℕ → Option RespValue
both q = if q == 0 then some pong else second q

abbrev end : Session
end = record new_session { read = 2; queue = 1 ∷ []; responses = both; written = (0, pong) ∷ [] }

to_end : Reach end
unfolding new_session
to_end =
    next
      (next
        (next
          (next
            (next
              (next (next (next start (decoded refl refl)) (queued 0 refl refl (omega arith)))
                (decoded refl refl))
              (queued 1 refl refl (omega arith)))
            (responded second (λ q v e. cc)))
          (responded both (λ q v e. ground arith)))
        (took 0 (1 ∷ []) refl refl refl))
      (wrote 0 pong refl refl refl)

responses_in_order_example :
    (requests end.written ≡ numbers (length end.written) 0)
    × All (IsResponse end.responses) end.written
responses_in_order_example = responses_in_order to_end

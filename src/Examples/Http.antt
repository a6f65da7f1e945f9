-- ===== src/Examples/Http.antt =====
-- cache_server.cc: requests and sessions at a small cache.
use cs389hw.Shared.{
  ◌≡◌, refl, arith, Bool, true, false, not, ◌&&◌, some, [], ◌∷◌, Bytes, Result, ok, stop,
  bad_access, text, bytes_beq,
}
use cs389hw.Memory.{Ptr, bump, load, read}
use cs389hw.Fifo.{FifoEvictor, evictor}
use cs389hw.CacheLib
use cs389hw.CacheLib.{Impl, del}
use cs389hw.CacheLib.Valid.{value}
use cs389hw.Server.{
  post, dispatch, handle_put, put_at, at_zero, find_char, bad_target, error_response, set_field,
  Request, Response, get, put, delete_, default_response, handle_request, bad_request,
}
use cs389hw.Server.Refused.{refused, reason}
use cs389hw.Server.Answers.{accepted, c_string, put-get}
use cs389hw.Server.Race.{get-del-load}
use cs389hw.Session.{
  reading, on_write, written, Session, on_read, send, Reachable, started, next, read_ends, arrived,
  writing,
}
use cs389hw.Session.Closing.{AllRefusals, earlier, success_is_last, refused_stays_open}
use cs389hw.Client.Parse.{json_text}
use cs389hw.Examples.Store.{cache, cache-IsValid}

abbrev beast : Bytes
beast = text "Boost.Beast"

abbrev dump : Bytes → Bytes → Result Bytes
dump key val = ok (json_text key val)

abbrev answer : Request → Impl FifoEvictor → Result (Response × Impl FifoEvictor)
answer = handle_request evictor bump 9 beast dump

abbrev no_value : Request
no_value = record {
  method = put;
  target = text "/key";
  version = 11;
  keep_alive = true;
  fields = [];
}

refused_example : answer no_value cache ≡ ok (bad_request beast no_value (reason put), cache)
unfolding bytes_beq
refused_example = refused evictor bump 9 beast dump no_value cache refl refl

abbrev put_c : Request
put_c = record {
  method = put;
  target = text "/c/12345";
  version = 11;
  keep_alive = true;
  fields = [];
}

abbrev get_c : Request
get_c = record { method = get; target = text "/c"; version = 11; keep_alive = true; fields = [] }

abbrev c_12345 : Bytes
c_12345 = json_text (text "c") (text "12345")

put-get_example :
    (s₁ s₂ : Impl FifoEvictor) × (answer put_c cache ≡ ok (accepted s₁, s₁))
    × (answer get_c s₁ ≡ ok (record default_response { body = c_12345 }, s₂))
    × (value s₂ (text "c") ≡ some (c_string (text "12345")))
put-get_example =
    put-get bump 9 beast dump cache-IsValid (text "c") (λ p. cc) put_c get_c (text "12345") c_12345
      refl refl refl refl refl refl refl refl (omega arith) (omega arith)

abbrev delete_a : Request
delete_a = record {
  method = delete_;
  target = text "/a";
  version = 11;
  keep_alive = true;
  fields = [];
}

abbrev get_a : Request
get_a = record { method = get; target = text "/a"; version = 11; keep_alive = true; fields = [] }

get-del-load_example :
    (p : Ptr) × (s₁ s₂ : Impl FifoEvictor) × (CacheLib.get evictor (text "a") cache
      ≡ ok ((p, 3), s₁))
    × (del (text "a") s₁ ≡ ok (true, s₂))
    × (load s₂.buffers p ≡ stop bad_access)
unfolding bytes_beq read
get-del-load_example = get-del-load cache-IsValid (text "a") (λ p. cc) refl

abbrev pub need_eof : Response → Bool
need_eof r = not (r.prepared && r.keep_alive)

abbrev refused_once : Session FifoEvictor
refused_once = record {
  phase = writing false;
  answers = bad_request beast no_value (reason put) ∷ [];
  cache = cache;
}

refused_once-Reachable : Reachable evictor bump 9 beast dump need_eof cache refused_once
unfolding on_read handle_request dispatch handle_put put_at at_zero find_char bad_target bad_request
    error_response set_field send bytes_beq
refused_once-Reachable = next started (read_ends (arrived no_value) refl refl)

success_is_last_example : AllRefusals (earlier refused_once.answers)
success_is_last_example =
    success_is_last (λ r h. refl) evictor bump 9 beast dump refused_once-Reachable

abbrev post_reset : Request
post_reset = record {
  method = post;
  target = text "/reset";
  version = 11;
  keep_alive = true;
  fields = [];
}

abbrev pub waiting : Session FifoEvictor
waiting = record { phase = reading; answers = []; cache = cache }

refused_stays_open_example :
    (s' : Session FifoEvictor) × (on_read evictor bump 9 beast dump need_eof
        (arrived no_value)
        waiting
      ≡ ok s')
    × (s'.phase ≡ writing false)
    × (on_write false written s'
        ≡ record waiting { answers = bad_request beast no_value (reason put) ∷ [] })
unfolding bytes_beq
refused_stays_open_example =
    refused_stays_open (λ r h. refl) evictor bump 9 beast dump no_value waiting refl refl refl

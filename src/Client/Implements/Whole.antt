-- ===== src/Client/Implements/Whole.antt =====
-- cache_client.cc in front of cache_server.cc, held against the contract of cache.hh.
use cs389hw.Shared.{
  ℕ, ◌≤◌, ◌≡◌, refl, ap, sym, ◌∙◌, arith, subst, true, false, none, some, Key, Bytes, bytes_eq,
  nat_eq, Result, ok, ◌==◌, eq_refl, length, text,
}
use cs389hw.Shared.Tables.{find}
use cs389hw.Memory.{Allocator}
use cs389hw.Evictor.{Evictor, IsPolicy}
use cs389hw.CacheLib.{Impl}
use cs389hw.CacheLib.Blocks.{read_in}
use cs389hw.CacheLib.Valid.{value}
use cs389hw.CacheLib.Reset.{reset_lem}
use cs389hw.Server.{Response, post, handle_request, dispatch}
use cs389hw.Server.Answers.{accepted}
use cs389hw.Cache.Contract.{Kept, Contract}
use cs389hw.Library.Implements.{Enough}
use cs389hw.Client
use cs389hw.Client.{get_current_mem, substr}
use cs389hw.Shared.{bytes_beq}
use cs389hw.Shared.Decimal.{to_text}
use cs389hw.CacheLib
use cs389hw.Server.{default_response, set_header, set_field, handle_post}
use cs389hw.Client.{request, get_value, parse_answer, string_of}
use cs389hw.Client.EndToEnd.{Dumps}
use cs389hw.Client.SpaceUsed.{Prints, read_space, read_space_lem}
use cs389hw.Client.Implements.{IsReady, view, serve, to_server}
use cs389hw.Client.Connection.{Connection, make_request, client}
use cs389hw.Client.Implements.Calls.{after_call, set_body, get_body, get_absent, del_ready}

module _ {S : Type 0} {ev : Evictor S} {P : IsPolicy ev} (alloc : Allocator Bytes)
    {rounds : Impl S → ℕ} (enough : Enough P rounds) (beast_version : Bytes)
    {dump : Bytes → Bytes → Result Bytes} (dumps : Dumps dump) {print : Response → Bytes}
    (prints : Prints print) where
  reset_ready :
      {c : Connection (Impl S)}
      → IsReady P c
      → (c' : Connection (Impl S)) × ((to_server ev alloc rounds beast_version dump print).reset c
          ≡ ok c')
        × Kept (view P) c c'
        × ((j : Key) → value c'.remote j ≡ none)
        × (c'.remote.current_mem ≡ 0)
  unfolding client Client.reset make_request handle_request dispatch handle_post
  reset_ready {c} r =
      let n = rounds c.remote in
      let (below, below') = enough c.remote r.order r.valid in
      let (s, ran, valid, empty, unused, freed) = reset_lem P n r.valid below below' in
      let gone : (j : Key) → value s j ≡ none = λ j. ap (λ t. read_in s.buffers (find t j)) empty in
      let answered : serve ev alloc rounds beast_version dump
            (request c.host beast_version post (text "/reset")) c.remote
          ≡ ok (accepted s, s) =
        rw (eq_refl (text "/reset"), ran) refl in
      (
        record c { remote = s },
        rw (r.connected, answered) refl,
        after_call alloc enough beast_version dumps prints r s _
            (request c.host beast_version post (text "/reset")) _ answered valid
            (λ j v e. absurd (ground (arith, gone j, e))),
        gone,
        unused,
      )

  space_lem :
      {c : Connection (Impl S)}
      → IsReady P c
      → (to_server ev alloc rounds beast_version dump print).space_used c
        ≡ ok (c.remote.current_mem, c)
  unfolding client make_request get_current_mem handle_request dispatch set_header set_field
      CacheLib.get_current_mem substr bytes_beq
  space_lem {c} r =
      let s = c.remote in
      let d = record c { connected = true } in
      let line =
        prints (set_header s default_response 200) (to_text s.current_mem) refl refl refl in
      let read =
        read_space_lem d s.current_mem
          (omega (arith, r.valid.sound.bounded, r.valid.sound.small)) in
      rw r.connected (ap (read_space d) line ∙ read)

  -- The client in front of `handle_request`, with no session between, keeps the laws of
  -- Cache/Contract, on a cache that has an evictor. Its keys are printable, not empty, without
  -- quotation mark, backslash and slash; its values are the C strings of printable texts without
  -- quotation mark and backslash; neither begins with a closing brace.
  pub client-Contract : Contract (to_server ev alloc rounds beast_version dump print) (view P)
  client-Contract = record {
    set_stores = λ {w = c} key val r k string fits.
        subst
          (λ v.
            length v ≤ c.remote.my_maxmem
            → (c' : Connection (Impl S)) × ((to_server ev alloc rounds beast_version dump print).set
                  key v (length v) c
                ≡ ok c')
              × Kept (view P) c c'
              × (value c'.remote key ≡ some v)
              × ((j : Key) (u : Bytes)
                  → (j == key) ≡ false
                  → value c'.remote j ≡ some u
                  → value c.remote j ≡ some u))
          (sym string.terminated)
          (set_body alloc enough beast_version dumps prints r key k string.body string.clean) fits;
    get_finds = λ {w = c} {val} key r k found.
        let string = r.strings key val found in
        subst
          (λ v.
            value c.remote key ≡ some v
            → (c' : Connection (Impl S)) × ((to_server ev alloc rounds beast_version dump print).get
                  key c
                ≡ ok ((some v, length v), c'))
              × Kept (view P) c c'
              × ((j : Key) → value c'.remote j ≡ value c.remote j))
          (sym string.terminated)
          (get_body alloc enough beast_version dumps prints r key k string.body string.clean) found;
    get_misses =
        λ key r k absent. get_absent alloc enough beast_version dumps prints r key k absent;
    del_removes = λ key r k. del_ready alloc enough beast_version dumps prints r key k;
    space_used_reads = λ r. space_lem r;
    reset_empties = λ r. reset_ready r;
  }

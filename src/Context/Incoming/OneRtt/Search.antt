-- ===== src/Context/Incoming/OneRtt/Search.antt =====
-- What the search for a connection finds.
use simple_quic.Common.{
  ◌≡◌, refl, ap, ◌∙◌, List, [], ◌∷◌, ◌++◌, Bool, true, false, Result, ok, ◌>>=◌,
}
use simple_quic.Context.Incoming.{Connection, Handling}
use simple_quic.Context.Incoming.OneRtt.{Batch, Handler, handle_first, found_by}

-- No connection meets the test.
abbrev pub AllFail : (Connection → Bool) → List Connection → Type 0
AllFail test [] = Unit {0}
AllFail test (c ∷ cs) = (test c ≡ false) × AllFail test cs

abbrev in_front : Connection → Result Batch → Result Batch
in_front c r = do b ← r; ok (record b { connections = c ∷ b.connections })

skipped :
    (b : Bool) (f : Handler) (added : Bool) (c : Connection) (cs : List Connection)
    (rest : Result Batch)
    → b ≡ false
    → found_by b f added c cs rest ≡ in_front c rest
unfolding found_by
skipped b f added c cs rest e = ap (λ t. found_by t f added c cs rest) e

pub handle_first-none :
    (test : Connection → Bool) (f : Handler) (added on : Bool) (cs : List Connection)
    → AllFail test cs
    → handle_first test f (ok on) added cs
      ≡ ok (record { connections = cs; have_added_to_ack = added; goes_on = on })
unfolding handle_first
handle_first-none test f added on [] h = refl
handle_first-none test f added on (c ∷ cs) (e, h) =
    skipped (test c) f added c cs (handle_first test f (ok on) added cs) e
    ∙ ap (in_front c) (handle_first-none test f added on cs h)

pub handle_first-last :
    (test : Connection → Bool) (f : Handler) (missing : Result Bool) (added on : Bool)
    (cs : List Connection) (c : Connection) (h : Handling)
    → AllFail test cs
    → test c ≡ true
    → f (record { connection = c; have_added_to_ack = added }) ≡ ok (on, h)
    → handle_first test f missing added (cs ++ (c ∷ []))
      ≡ ok (record {
        connections = cs ++ (h.connection ∷ []);
        have_added_to_ack = h.have_added_to_ack;
        goes_on = on;
      })
unfolding handle_first found_by
handle_first-last test f missing added on [] c h all e run =
    let last = handle_first test f missing added [] in
    ap (λ b. found_by b f added c [] last) e
    ∙ ap
        (λ r. do
          (o, h') ← r
          ok (record {
            connections = h'.connection ∷ [];
            have_added_to_ack = h'.have_added_to_ack;
            goes_on = o;
          }))
        run
handle_first-last test f missing added on (d ∷ cs) c h (e', all) e run =
    skipped (test d) f added d (cs ++ (c ∷ [])) (handle_first test f missing added (cs ++ (c ∷ [])))
      e'
    ∙ ap (in_front d) (handle_first-last test f missing added on cs c h all e run)

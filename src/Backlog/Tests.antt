-- ===== src/Backlog/Tests.antt =====
-- A backlog of four bytes that goes round, after redis-stable/src/replication.c.
use better_efisis.Prelude.{ℕ, ◌≡◌, refl, true, false, some, [], ◌∷◌, ◌++◌, arith}
use better_efisis.Backlog.{
  Server, create, resize, feed, copy, feed_loop, slice, reply_loop, add_reply, partial_resync,
}
use better_efisis.Backlog.Window.{Holds}
use better_efisis.Backlog.Feed.{feed-Holds, create-Holds, resize-Holds}
use better_efisis.Backlog.Reply.{concat, partial_resync-rest}

abbrev blank : ℕ → ℕ
blank i = 0

abbrev before : Server
before = record {
  exists = false;
  cell = blank;
  size = 4;
  histlen = 0;
  idx = 0;
  off = 0;
  master_offset = 9;
  slaves = 0;
}

abbrev created : Server
created = record {
  exists = true;
  cell = blank;
  size = 4;
  histlen = 0;
  idx = 0;
  off = 11;
  master_offset = 10;
  slaves = 0;
}

is_created : create before blank ≡ some created
unfolding create
is_created = refl

create-Holds_run : Holds 11 [] created
create-Holds_run = create-Holds before created blank (omega arith) is_created

feed-Holds_example : Holds 11 ([] ++ (1 ∷ 2 ∷ 3 ∷ [])) (feed created (1 ∷ 2 ∷ 3 ∷ []))
feed-Holds_example = feed-Holds 11 [] (1 ∷ 2 ∷ 3 ∷ []) created create-Holds_run

abbrev fed : Server
fed = feed (feed created (1 ∷ 2 ∷ 3 ∷ [])) (4 ∷ 5 ∷ 6 ∷ [])

fed-Holds : Holds 11 (1 ∷ 2 ∷ 3 ∷ 4 ∷ 5 ∷ 6 ∷ []) fed
fed-Holds =
    feed-Holds 11 (1 ∷ 2 ∷ 3 ∷ []) (4 ∷ 5 ∷ 6 ∷ []) (feed created (1 ∷ 2 ∷ 3 ∷ []))
      (feed-Holds 11 [] (1 ∷ 2 ∷ 3 ∷ []) created create-Holds_run)

fed_off : fed.off ≡ 13
unfolding feed feed_loop copy
fed_off = refl

goes_round : partial_resync fed 14 ≡ some ((4 ∷ []) ∷ (5 ∷ 6 ∷ []) ∷ [], 3)
unfolding feed feed_loop copy partial_resync add_reply reply_loop slice
goes_round = refl

partial_resync-rest_example :
    (partial_resync fed 14 ≡ some (add_reply fed 14))
    × (concat (add_reply fed 14).0 ≡ 4 ∷ 5 ∷ 6 ∷ [])
    × ((add_reply fed 14).1 ≡ 3)
partial_resync-rest_example =
    partial_resync-rest 11 (1 ∷ 2 ∷ 3 ∷ 4 ∷ 5 ∷ 6 ∷ []) fed 14 fed-Holds (omega (arith, fed_off))
      (omega arith)

resize-Holds_example : Holds 11 [] (resize created 100 blank)
resize-Holds_example = resize-Holds created 100 blank refl (omega arith)

-- ===== src/Http/Server/Answers.antt =====
-- The answers to a connection, in httpd/connection.cpp, as a part of the invariant.
use bnc.Prelude.{
  ℕ, suc, ◌+◌, ◌≤◌, ◌<◌, false, List, [], ◌∷◌, ◌++◌, ◌==◌, ◌≡◌, ◌∙◌, ap, arith, Bool-cases, inl,
  inr, count, count-append, All, All-append, sym,
}
use bnc.Http.Handler.Framed.{fresh_reply}
use bnc.Http.Connection.{Connection}
use bnc.Http.Connection.Replies.{Readable}
use bnc.Http.Server.{Op, read_some, Write, reply_to, stream_to, event_to, update}
use bnc.Http.Server.Counting.{is_read, is_answer}

abbrev pub ReadableWrite : Write → Type 0
ReadableWrite (reply_to i bytes) = Readable bytes
ReadableWrite (stream_to i bytes) = Unit
ReadableWrite (event_to i bytes) = Unit

-- A connection has an outstanding read or was answered, but not both and neither twice; one that was
-- not made has neither; one that was made and not answered has the reply of a new connection; and
-- the replies that were written can be read.
pub record Answers (pending : List Op) (writes : List Write) (fresh : ℕ)
    (connection : ℕ → Connection) : Type 0 where
  pub once : (i : ℕ) → count (is_read i) pending + count (is_answer i) writes ≤ 1
  pub unborn : (i : ℕ) → fresh ≤ i → count (is_read i) pending + count (is_answer i) writes ≡ 0
  pub untouched :
      (i : ℕ)
      → i < fresh
      → count (is_answer i) writes ≡ 0
      → (connection i).reply ≡ fresh_reply (connection i).reply.status
  pub readable : All ReadableWrite writes

-- A connection whose read has completed.
pub record Free (i : ℕ) (pending : List Op) (writes : List Write) (fresh : ℕ) : Type 0 where
  pub no_read : count (is_read i) pending ≡ 0
  pub no_answer : count (is_answer i) writes ≡ 0
  pub born : i < fresh

module _ (writes : List Write) (fresh : ℕ) (connection : ℕ → Connection) where
  pub drop-Answers :
      (xs ys : List Op) (o : Op)
      → Answers (xs ++ o ∷ ys) writes fresh connection
      → Answers (xs ++ ys) writes fresh connection
  drop-Answers xs ys o v = record {
    once = λ i.
        ground
          (arith, v.once i, count-append (is_read i) xs (o ∷ ys), count-append (is_read i) xs ys);
    unborn = λ i h.
        ground (
          arith,
          v.unborn i h,
          count-append (is_read i) xs (o ∷ ys),
          count-append (is_read i) xs ys,
        );
    untouched = v.untouched;
    readable = v.readable;
  }

  pub read-Free :
      (xs ys : List Op) (i : ℕ)
      → Answers (xs ++ read_some i ∷ ys) writes fresh connection
      → Free i (xs ++ ys) writes fresh
  read-Free xs ys i v = record {
    no_read = ground (
      arith,
      v.once i,
      count-append (is_read i) xs (read_some i ∷ ys),
      count-append (is_read i) xs ys,
    );
    no_answer = ground (arith, v.once i, count-append (is_read i) xs (read_some i ∷ ys));
    born = ground (arith, v.unborn i, count-append (is_read i) xs (read_some i ∷ ys));
  }

  module _ (pending : List Op) (v : Answers pending writes fresh connection) where
    -- Operations that are no reads, and writes that are no answers.
    pub other-Answers :
        (os : List Op) (ws : List Write)
        → ((i : ℕ) → count (is_read i) os ≡ 0)
        → ((i : ℕ) → count (is_answer i) ws ≡ 0)
        → All ReadableWrite ws
        → Answers (pending ++ os) (writes ++ ws) fresh connection
    other-Answers os ws h k r = record {
      once = λ i. omega (
        arith,
        v.once i,
        h i,
        k i,
        count-append (is_read i) pending os,
        count-append (is_answer i) writes ws,
      );
      unborn = λ i l. omega (
        arith,
        v.unborn i l,
        h i,
        k i,
        count-append (is_read i) pending os,
        count-append (is_answer i) writes ws,
      );
      untouched = λ i l e. v.untouched i l (omega (arith, e, count-append (is_answer i) writes ws));
      readable = All-append ReadableWrite writes ws v.readable r;
    }

    -- The connection with the next number.
    pub start-Answers :
        (c : Connection)
        → c.reply ≡ fresh_reply c.reply.status
        → Answers (pending ++ read_some fresh ∷ []) writes (suc fresh) (update connection fresh c)
    start-Answers c e = record {
      once = λ j.
          ground
            (arith, v.once j, v.unborn j, count-append (is_read j) pending (read_some fresh ∷ []));
      unborn = λ j l.
          ground (arith, v.unborn j, count-append (is_read j) pending (read_some fresh ∷ []));
      untouched = λ j l z. elim (Bool-cases (j == fresh)) [
        | inl k ↦ rw k e
        | inr k ↦ rw k (v.untouched j (ground arith) z)
      ];
      readable = v.readable;
    }

    module _ (i : ℕ) (f : Free i pending writes fresh) where
      -- Another read of a connection with the same reply.
      pub read-Answers :
          (c : Connection)
          → c.reply ≡ (connection i).reply
          → Answers (pending ++ read_some i ∷ []) writes fresh (update connection i c)
      read-Answers c e = record {
        once = λ j. ground (
          arith,
          v.once j,
          f.no_read,
          f.no_answer,
          count-append (is_read j) pending (read_some i ∷ []),
        );
        unborn = λ j l.
            ground
              (arith, v.unborn j l, f.born, count-append (is_read j) pending (read_some i ∷ []));
        untouched = λ j l z. elim (Bool-cases (j == i)) [
          | inl k ↦
              rw k (e ∙ v.untouched i f.born f.no_answer ∙ ap (λ r. fresh_reply r.status) (sym e))
          | inr k ↦ rw k (v.untouched j l z)
        ];
        readable = v.readable;
      }

      pub answer-Answers :
          (w : Write) (o : Op) (g : ℕ → Connection)
          → ((j : ℕ) → (j == i) ≡ false → (g j).reply ≡ (connection j).reply)
          → ((j : ℕ) → is_answer j w ≡ (j == i))
          → ((j : ℕ) → is_read j o ≡ false)
          → ReadableWrite w
          → Answers (pending ++ o ∷ []) (writes ++ w ∷ []) fresh g
      answer-Answers w o g same a n r = record {
        once = λ j. ground (
          arith,
          a j,
          n j,
          v.once j,
          f.no_read,
          f.no_answer,
          count-append (is_read j) pending (o ∷ []),
          count-append (is_answer j) writes (w ∷ []),
        );
        unborn = λ j l. ground (
          arith,
          a j,
          n j,
          v.unborn j l,
          f.born,
          count-append (is_read j) pending (o ∷ []),
          count-append (is_answer j) writes (w ∷ []),
        );
        untouched = λ j l z.
            let n = count-append (is_answer j) writes (w ∷ []) in
            elim (Bool-cases (j == i)) [
              | inl k ↦ let t = a j ∙ k in ground (arith, z, n)
              | inr k ↦
                  same j k
                  ∙ v.untouched j l (ground (arith, z, n))
                  ∙ ap (λ r. fresh_reply r.status) (sym (same j k))
            ];
        readable = All-append ReadableWrite writes (w ∷ []) v.readable (r, tt);
      }

-- ===== src/Tool/Proxy.antt =====
-- src/client/px_client.c: its operations as the backend of a program, on the answers of lcapd.
use lcap.Base.{ℕ, Bool, true, false, not, List, [], ◌∷◌, some, ltb, ◌==◌, if◌then◌else◌, ℤ}
use lcap.Sys.{World}
use lcap.Sys.Run.{Run, Cmd, ok, fault, pure, ◌>>=◌}
use lcap.Reader.Main.{u64_of_int}
use lcap.Client.{
  PxZmqData, Answer, px_changelog_start, px_changelog_fini, px_changelog_recv, px_changelog_free,
  px_changelog_clear,
}
use lcap.Facade.{LcapClOperations}

-- The state of the client, and the answers to its next requests. Behind the last one, a receive ends
-- with EAGAIN.
pub record Link : Type 0 where
  pub pzd : PxZmqData
  pub answers : List Answer

abbrev pub first_answer : List Answer → Answer
first_answer [] = record { frames = []; broken = some 10 }
first_answer (a ∷ answers) = a

abbrev pub other_answers : List Answer → List Answer
other_answers [] = []
other_answers (a ∷ answers) = answers

abbrev pub linked : {A : Type 0} → Run PxZmqData A → List Answer → Run Link A
linked (ok a pzd) answers = ok a (record { pzd = pzd; answers = answers })
linked (fault pzd) answers = fault (record { pzd = pzd; answers = answers })

-- A call that asks takes the next answer.
abbrev pub px_call : {A : Type 0} → (PxZmqData → Bool) → (Answer → Cmd PxZmqData A) → Cmd Link A
px_call asks m l =
    linked (m (first_answer l.answers) l.pzd)
      (if asks l.pzd then other_answers l.answers else l.answers)

-- `connected` is the result of zmq_connect, `rec_header` the size of struct changelog_rec.
abbrev pub cl_ops_proxy : World → ℕ → ℤ → LcapClOperations Link
cl_ops_proxy w rec_header connected = record {
  cco_start = λ flags mdtname startrec. (do
    r ←
        px_call (λ pzd. true)
          (λ a. px_changelog_start w flags mdtname (u64_of_int startrec) connected a)
    pure r.0);
  cco_fini = (do r ← px_call (λ pzd. true) (px_changelog_fini w); pure r.0);
  cco_recv = px_call (λ pzd. pzd.rec_nxt == pzd.rec_cnt) (px_changelog_recv w rec_header);
  cco_free = λ rec. px_call (λ pzd. false) (λ a. px_changelog_free);
  cco_clear = λ mdtname id endrec.
      px_call (λ pzd. not (ltb pzd.rec_nxt pzd.rec_cnt))
        (px_changelog_clear w mdtname id (u64_of_int endrec));
}

-- ===== src/Examples/Clients.antt =====
-- Connections that break, and requests that are answered.
use cs244b_fp.Prelude.{
  ◌≡◌, refl, ◌⊎◌, true, false, none, some, List, [], ◌∷◌, ◌++◌, ok, err, arith, null_deref,
}
use cs244b_fp.Prelude.Maps.{find, IsSorted}
use cs244b_fp.Config.{Hash}
use cs244b_fp.Network.Rpc.{wait_for_try_open_connection, try_action, answer}
use cs244b_fp.Network.Client.{
  Message, vote_msg, ProtocolClient, send_message, send_messages, do_work,
}
use cs244b_fp.Network.Client.Retry.{do_work-delivers}
use cs244b_fp.Network.Client.Order.{do_work-prefix, do_work-shutdown}
use cs244b_fp.Network.Worker.{BlockFetchWorker, answer_round, extract_reqs}
use cs244b_fp.Network.Worker.Requests.{answer_round-readds}
use cs244b_fp.Examples.Config.{four, toy_sodium}
use cs244b_fp.Examples.Replica.{started}

abbrev a_vote : Message
a_vote = vote_msg (record { vote = record { hash = 4; sig = 5 }; voter = 1 })

-- The first call fails, the connection is opened again, and the second returns.
abbrev broken_once : ProtocolClient
broken_once = record {
  rpc = record {
    is_open = false;
    done_flag = false;
    opens = (false, false) ∷ (true, false) ∷ (true, false) ∷ (true, false) ∷ [];
    calls = (none, false) ∷ (some tt, false) ∷ [];
  };
  work = [];
  delivered = [];
}

do_work-delivers_example :
    (c' : ProtocolClient) × (do_work (a_vote ∷ []) broken_once ≡ ok c')
    × (c'.delivered ≡ broken_once.delivered ++ a_vote ∷ [])
    × (c'.work ≡ broken_once.work)
do_work-delivers_example = do_work-delivers (a_vote ∷ []) broken_once (record {
  running = refl;
  quiet_opens = (refl, (refl, (refl, (refl, tt))));
  quiet_calls = (refl, (refl, tt));
  answers = omega arith;
  reconnects = omega arith;
})

abbrev connected : ProtocolClient
connected = record broken_once {
  rpc = record { is_open = true; done_flag = false; opens = []; calls = (some tt, true) ∷ [] };
}

abbrev sent_one : ProtocolClient
sent_one = record {
  rpc = record { is_open = true; done_flag = true; opens = []; calls = [] };
  work = [];
  delivered = a_vote ∷ [];
}

connected-sent_one : do_work (a_vote ∷ []) connected ≡ ok sent_one
unfolding do_work send_messages send_message try_action wait_for_try_open_connection answer
connected-sent_one = refl

do_work-prefix_example :
    (front back : List Message) × ((a_vote ∷ []) ≡ front ++ back)
    × (sent_one.delivered ≡ connected.delivered ++ front)
    × ((back ≡ []) ⊎ (sent_one.rpc.done_flag ≡ true))
do_work-prefix_example = do_work-prefix (a_vote ∷ []) connected sent_one connected-sent_one

abbrev unreachable : ProtocolClient
unreachable = record broken_once {
  rpc = record {
    is_open = false;
    done_flag = false;
    opens = (false, false) ∷ (false, true) ∷ [];
    calls = [];
  };
}

do_work-shutdown_example : do_work (a_vote ∷ []) unreachable ≡ err null_deref
do_work-shutdown_example = do_work-shutdown 1 [] a_vote [] unreachable refl refl refl

abbrev asking : BlockFetchWorker
asking = record {
  rpc = record { is_open = false; done_flag = false; opens = []; calls = [] };
  reqs = (4, tt) ∷ (9, tt) ∷ [];
  info_id = 2;
}

abbrev asked_meanwhile : BlockFetchWorker
asked_meanwhile = record asking { reqs = (5, tt) ∷ [] }

answer_round-readds_example :
    (after : BlockFetchWorker) × (answer_round toy_sodium four
        (extract_reqs asking).0
        none
        asked_meanwhile
        started.network
      ≡ ok (after, started.network))
    × IsSorted after.reqs
    × ((h : Hash)
        → find h after.reqs
          ≡ (elim (find h asking.reqs) [ some _ ↦ some tt | none ↦ find h asked_meanwhile.reqs ]))
answer_round-readds_example =
    answer_round-readds toy_sodium four asking asked_meanwhile started.network (tt, tt)

-- ===== src/Examples/Writes.antt =====
-- Writes that the model asks for.
use agent_ship.Prelude.{◌≤◌, String, refl, true, List, [], ◌∷◌}
use agent_ship.Dict.{get}
use agent_ship.Ledger.Entry.{dict_ledger}
use agent_ship.Ledger.CallOnce.{answer, World}
use agent_ship.Ledger.AtMostOnce.{count}
use agent_ship.Examples.Authoring.{turn_of}
use agent_ship.Tools.{BoundTool, undecided, approved, key_of}
use agent_ship.Tools.Approval.{Call, calls, calls_fire_once_approved}

abbrev refund : BoundTool String
refund = record {
  name = "refund";
  side_effecting = true;
  args = "{\"order\": 42}";
  reply = answer "refunded";
  exception = "";
}

abbrev itself : String → String
itself s = s

abbrev nothing_yet : World (dict_ledger String).Ledger
nothing_yet = record { ledger = []; fired = []; steps = 0 }

abbrev site : String
site = "tool|tools|3|c1"

abbrev key : String
key = key_of (dict_ledger String) itself itself (turn_of "acme" "support") site refund

-- The turn pauses, is resumed with an approval, dies behind the write, and is resumed again.
abbrev refunds : List (Call String)
refunds =
    record {
      ctx = turn_of "acme" "support";
      site = site;
      tool = refund;
      decision = undecided;
      steps = 9;
    }
    ∷ record {
      ctx = turn_of "acme" "support";
      site = site;
      tool = refund;
      decision = approved;
      steps = 3;
    }
    ∷ record {
      ctx = turn_of "acme" "support";
      site = site;
      tool = refund;
      decision = approved;
      steps = 9;
    }
    ∷ []

calls_fire_once_approved_example :
    count key (calls (dict_ledger String) itself itself true nothing_yet refunds).fired ≤ 1
unfolding get agent_ship.Ledger.Key.idem_key agent_ship.Context.conversation_key
calls_fire_once_approved_example =
    calls_fire_once_approved (dict_ledger String) itself itself true key nothing_yet refunds refl
      refl

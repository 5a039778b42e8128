-- ===== src/Ledger/Key.antt =====
-- `idem_key`: the key of one tool call.
use Prim.Native.String.{◌++◌ as ◌<>◌}
use agent_ship.Prelude.{String, ◌≡◌, refl, true}
use agent_ship.Text.{lacks}
use agent_ship.Text.Separated.{separated-injective}
use agent_ship.ThreadLock.Keys.{is_unit_separator}

-- `canonical_json` is json.dumps with its arguments, and `digest` the hexadecimal sha256.
module _ {Value : Type 0} (canonical_json : Value → String) (digest : String → String) where
  abbrev key_payload : String → String → String → Value → String
  key_payload thread_id node_id tool_name args =
      thread_id
      <> ("\u{1f}" <> (node_id <> ("\u{1f}" <> (tool_name <> ("\u{1f}" <> canonical_json args)))))

  unfoldable pub idem_key : String → String → String → Value → String
  idem_key thread_id node_id tool_name args = digest (key_payload thread_id node_id tool_name args)

  -- If the digests of two calls' texts do not collide and the ids and names have no separator, the
  -- calls share a key only if thread, node and tool are the same and the arguments have one JSON text.
  idem_key-injective :
      (thread node tool thread' node' tool' : String) (args args' : Value)
      → (digest (key_payload thread node tool args) ≡ digest (key_payload thread' node' tool' args')
          → key_payload thread node tool args ≡ key_payload thread' node' tool' args')
      → (lacks is_unit_separator thread ≡ true) × (lacks is_unit_separator thread' ≡ true)
      → (lacks is_unit_separator node ≡ true) × (lacks is_unit_separator node' ≡ true)
      → (lacks is_unit_separator tool ≡ true) × (lacks is_unit_separator tool' ≡ true)
      → idem_key thread node tool args ≡ idem_key thread' node' tool' args'
      → (thread ≡ thread')
        × (node ≡ node')
        × (tool ≡ tool')
        × (canonical_json args ≡ canonical_json args')
  unfolding idem_key
  idem_key-injective thread node tool thread' node' tool' args args' no_collision t n l e =
      let (threads, e1) =
        separated-injective is_unit_separator "\u{1f}" thread thread' _ _ refl t.0 t.1
          (no_collision e) in
      let (nodes, e2) =
        separated-injective is_unit_separator "\u{1f}" node node' _ _ refl n.0 n.1 e1 in
      let (tools, same) =
        separated-injective is_unit_separator "\u{1f}" tool tool' _ _ refl l.0 l.1 e2 in
      (threads, nodes, tools, same)

-- ===== src/Peer/Editing.antt =====
-- `OverwriteUserEditableFields` of internal/domain/peer.go.
use awg_portal.Prelude.{Bool, true, false, ◌≡◌, refl, arith, string_eq}
use awg_portal.Peer.{Peer, PeerInterfaceConfig, overwrite_user_editable_fields, overwrite_keys}

-- A copy of a peer in which the fields that a user may edit are reset to those of a fixed peer.
abbrev edited_interface : PeerInterfaceConfig → PeerInterfaceConfig → PeerInterfaceConfig
edited_interface i j = record j { key_pair = i.key_pair; mtu = i.mtu }

abbrev pub edited : Peer → Peer → Peer
edited p q = record q {
  interface = edited_interface p.interface q.interface;
  identifier = p.identifier;
  preshared_key = p.preshared_key;
  display_name = p.display_name;
  persistent_keepalive = p.persistent_keepalive;
  expires_at = p.expires_at;
  disabled = p.disabled;
  disabled_reason = p.disabled_reason;
}

-- Two peers that differ at most in the fields that a user may edit: key pair, identifier and preshared
-- key, MTU, display name, keepalive, expiry and the disabled state.
abbrev pub DiffersInEditable : Peer → Peer → Type 0
DiffersInEditable p q = edited p q ≡ p

overwrite_keys-DiffersInEditable : (p u : Peer) → DiffersInEditable p (overwrite_keys p u)
unfolding overwrite_keys
overwrite_keys-DiffersInEditable p u = ground arith

pub overwrite-DiffersInEditable :
    (p u : Peer) (editable_keys : Bool)
    → DiffersInEditable p (overwrite_user_editable_fields p u editable_keys)
unfolding overwrite_user_editable_fields
overwrite-DiffersInEditable p u true = overwrite_keys-DiffersInEditable p u
overwrite-DiffersInEditable p u false = refl

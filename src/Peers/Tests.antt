-- ===== src/Peers/Tests.antt =====
-- Runs of the peer manager over the tables in memory, and the theorems at those inputs.
use awg_portal.Prelude.{String, ◌≡◌, ◌≢◌, ◌≤◌, refl, string_eq, List, [], arith}
use awg_portal.Errors.{ok, is}
use awg_portal.Access.{validate_user_access_rights, validate_admin_access_rights}
use awg_portal.Ip.{
  next_addr, host_addr, is_valid, prefix, cidr_from_string, cidrs_from_array, cidrs_from_string,
  contains_cidr, next, equal_prefix,
}
use awg_portal.Text.{trim_space, split_at_commas}
use awg_portal.Interface.{is_user_allowed}
use awg_portal.Interface.RoutingTable.{get_routing_table}
use awg_portal.Peer.{
  Peer, copy_calculated_attributes, overwrite_user_editable_fields, generate_display_name,
}
use awg_portal.Peer.Physical.{get_allowed_ips, host_addrs}
use awg_portal.Preparation.{
  check_creation_access, check_peer_limit, validate_peer_creation, validate_peer_modifications,
  validate_peer_deletion, prepare_peer, enabled_count,
}
use awg_portal.Database.{optional}
use awg_portal.Database.PeerStore.{
  get_interface, get_peer, get_user_peers, get_interface_peers, get_used_ips_per_subnet, used_ips,
  save_peer, delete_peer,
}
use awg_portal.Database.PeerMemory.{
  Tables, memory, find_peer, find_interface, put, remove, of_user, on_interface, peer_addresses,
  interface_addresses,
}
use awg_portal.Allocation.{get_fresh_peer_ip_config}
use awg_portal.Peers.{State, create_peer, update_peer, remove_peer}
use awg_portal.Peers.Examples.{
  by_ann, by_root, cidr, libraries, backends, config, keys, a_peer, before,
}
use awg_portal.Peers.Creation.{
  CreatedByUser, create_peer-CreatedByUser, create_peer-enabled_count, create_peer_replaces,
}
use awg_portal.Peers.Update.{UpdatedByUser, update_peer-UpdatedByUser}
use awg_portal.Peers.Removal.{Removed, remove_peer-Removed}

abbrev request : Peer
request = record (a_peer "asked" (cidr 9 32)) { display_name = "laptop" }

abbrev created_peer : Peer
created_peer = record (a_peer "fresh" (cidr 2 32)) {
  display_name = "laptop";
  base = record { created_by = "ann"; updated_by = "ann"; created_at = 7; updated_at = 7 };
}

abbrev empty : State Tables (Unit {0})
empty = record before { db = record before.db { peers = [] } }

after_creation : State Tables (Unit {0})
after_creation = (create_peer memory backends libraries config by_ann 7 keys request empty).1

ann_creates :
    create_peer memory backends libraries config by_ann 7 keys request empty
    ≡ (ok created_peer, after_creation)
unfolding after_creation create_peer check_creation_access check_peer_limit validate_peer_creation
    prepare_peer optional get_interface get_peer get_user_peers get_interface_peers
    get_used_ips_per_subnet used_ips save_peer get_fresh_peer_ip_config next_addr host_addr is_valid
    prefix next cidr_from_string cidrs_from_array cidrs_from_string contains_cidr equal_prefix
    trim_space split_at_commas is_user_allowed get_routing_table copy_calculated_attributes
    overwrite_user_editable_fields generate_display_name get_allowed_ips host_addrs enabled_count is
    validate_user_access_rights validate_admin_access_rights find_peer find_interface put remove
    of_user on_interface peer_addresses interface_addresses
ann_creates = refl

create_peer-CreatedByUser_example :
    CreatedByUser memory backends libraries config by_ann request created_peer empty after_creation
create_peer-CreatedByUser_example =
    create_peer-CreatedByUser memory backends libraries config by_ann 7 keys request created_peer
      empty after_creation refl ann_creates

create_peer-enabled_count_example :
    (peers : List Peer) × (get_user_peers memory empty.db "ann" ≡ ok peers)
    × (enabled_count peers ≤ 1)
create_peer-enabled_count_example =
    create_peer-enabled_count memory backends libraries config by_ann 7 keys request created_peer
      empty after_creation refl ann_creates 1 refl (omega arith)

-- An admin asks for a peer "new" of bob with the key of a stored peer of ann.
abbrev taking : Peer
taking = record (a_peer "one" (cidr 9 32)) { identifier = "new"; user_identifier = "bob" }

abbrev taken_peer : Peer
taken_peer = record taking {
  identifier = "one";
  base = record { created_by = "ann"; updated_by = "root"; created_at = 1; updated_at = 7 };
}

after_taking : State Tables (Unit {0})
after_taking = (create_peer memory backends libraries config by_root 7 keys taking before).1

root_creates :
    create_peer memory backends libraries config by_root 7 keys taking before
    ≡ (ok taken_peer, after_taking)
unfolding after_taking create_peer update_peer remove_peer validate_peer_modifications
    validate_peer_deletion delete_peer check_creation_access check_peer_limit validate_peer_creation
    prepare_peer optional get_interface get_peer get_user_peers get_interface_peers
    get_used_ips_per_subnet used_ips save_peer get_fresh_peer_ip_config next_addr host_addr is_valid
    prefix next cidr_from_string cidrs_from_array cidrs_from_string contains_cidr equal_prefix
    trim_space split_at_commas is_user_allowed get_routing_table copy_calculated_attributes
    overwrite_user_editable_fields generate_display_name get_allowed_ips host_addrs enabled_count is
    validate_user_access_rights validate_admin_access_rights find_peer find_interface put remove
    of_user on_interface peer_addresses interface_addresses
root_creates = refl

stored_before : get_peer memory before.db "one" ≡ ok (a_peer "one" (cidr 2 32))
unfolding get_peer find_peer
stored_before = refl

secret_given : ◌≢◌ {A = String} "secret" ""
secret_given e = cc

create_peer_replaces_example :
    (taken_peer.user_identifier ≡ "bob") × (get_peer memory after_taking.db "one" ≡ ok taken_peer)
create_peer_replaces_example =
    create_peer_replaces memory backends libraries config by_root 7 keys taking taken_peer
      (a_peer "one" (cidr 2 32)) before after_taking refl secret_given stored_before root_creates

-- Ann asks for another owner and other addresses, and for another name.
abbrev renaming : Peer
renaming = record (a_peer "one" (cidr 9 32)) {
  display_name = "phone";
  user_identifier = "bob";
  notes = "mine";
}

abbrev renamed_peer : Peer
renamed_peer = record (a_peer "one" (cidr 2 32)) {
  display_name = "phone";
  base = record { created_by = "ann"; updated_by = "ann"; created_at = 1; updated_at = 7 };
}

after_update : State Tables (Unit {0})
after_update = (update_peer memory backends libraries config by_ann 7 renaming before).1

ann_updates :
    update_peer memory backends libraries config by_ann 7 renaming before
    ≡ (ok renamed_peer, after_update)
unfolding after_update create_peer update_peer remove_peer validate_peer_modifications
    validate_peer_deletion delete_peer check_creation_access check_peer_limit validate_peer_creation
    prepare_peer optional get_interface get_peer get_user_peers get_interface_peers
    get_used_ips_per_subnet used_ips save_peer get_fresh_peer_ip_config next_addr host_addr is_valid
    prefix next cidr_from_string cidrs_from_array cidrs_from_string contains_cidr equal_prefix
    trim_space split_at_commas is_user_allowed get_routing_table copy_calculated_attributes
    overwrite_user_editable_fields generate_display_name get_allowed_ips host_addrs enabled_count is
    validate_user_access_rights validate_admin_access_rights find_peer find_interface put remove
    of_user on_interface peer_addresses interface_addresses
ann_updates = refl

update_peer-UpdatedByUser_example :
    UpdatedByUser memory backends libraries config by_ann renaming renamed_peer before after_update
update_peer-UpdatedByUser_example =
    update_peer-UpdatedByUser memory backends libraries config by_ann 7 renaming renamed_peer before
      after_update refl ann_updates

after_removal : State Tables (Unit {0})
after_removal = (remove_peer memory backends libraries config by_ann "one" before).1

ann_removes :
    remove_peer memory backends libraries config by_ann "one" before ≡ (ok tt, after_removal)
unfolding after_removal create_peer update_peer remove_peer validate_peer_modifications
    validate_peer_deletion delete_peer check_creation_access check_peer_limit validate_peer_creation
    prepare_peer optional get_interface get_peer get_user_peers get_interface_peers
    get_used_ips_per_subnet used_ips save_peer get_fresh_peer_ip_config next_addr host_addr is_valid
    prefix next cidr_from_string cidrs_from_array cidrs_from_string contains_cidr equal_prefix
    trim_space split_at_commas is_user_allowed get_routing_table copy_calculated_attributes
    overwrite_user_editable_fields generate_display_name get_allowed_ips host_addrs enabled_count is
    validate_user_access_rights validate_admin_access_rights find_peer find_interface put remove
    of_user on_interface peer_addresses interface_addresses
ann_removes = refl

remove_peer-Removed_example :
    Removed memory backends libraries config by_ann "one" before after_removal
remove_peer-Removed_example =
    remove_peer-Removed memory backends libraries config by_ann "one" before after_removal tt
      ann_removes

-- ===== src/Examples/Instances.antt =====
-- Runs of the instance provisioner on the test instance.
use uni_compute.Base.{◌≡◌, ◌↔◌, refl, true, false, none, some, [], ◌++◌, string_eq}
use uni_compute.Base.Result.{ok}
use uni_compute.External.RegionV2.{ServerV2Update, server_v2_spec_eq}
use uni_compute.Instance.Generate.{
  generate_server_networking, generate_server_update_request, generate_server_spec, needs_rebuild,
}
use uni_compute.Instance.Client.{get_region_client, InstanceState, get_server, delete_server}
use uni_compute.Instance.Provision.{create_or_update_server, provision}
use uni_compute.Instance.Outcomes.{
  asked, accepts, create_or_update_server_lem, Provisions, provision-ok,
}
use uni_compute.Instance.Networking.{generate_server_networking_lem, sent_meaning, stored_meaning}
use uni_compute.Examples.Data.{env_v2, instance_one, networking, server_v2, start_v2}

abbrev bigger : ServerV2Update
bigger = generate_server_update_request env_v2 instance_one

bigger_rebuilds : needs_rebuild (server_v2 "small").spec bigger.spec ≡ true
unfolding needs_rebuild generate_server_update_request generate_server_spec string_eq
bigger_rebuilds = refl

deletion_accepted : (delete_server env_v2 (server_v2 "small").id start_v2).0 ≡ ok tt
unfolding delete_server
deletion_accepted = refl

abbrev finished : InstanceState
finished = (provision env_v2 start_v2).1

provision_succeeds : provision env_v2 start_v2 ≡ (ok tt, finished)
unfolding provision get_region_client get_server create_or_update_server server_v2_spec_eq string_eq
    generate_server_update_request generate_server_spec generate_server_networking
provision_succeeds = refl

provision-ok_example : Provisions env_v2 start_v2 finished
provision-ok_example = provision-ok env_v2 start_v2 provision_succeeds

generate_server_networking_example :
    (sent_meaning (generate_server_networking (some networking)) ≡ stored_meaning (some networking))
    × ((generate_server_networking (some networking) ≡ none) ↔ (
        stored_meaning (some networking)
        ≡ record { security_groups = []; public_ip = false; addresses = [] }))
generate_server_networking_example = generate_server_networking_lem (some networking)

create_or_update_server_example :
    (create_or_update_server env_v2 (some (server_v2 "small")) start_v2).1.sent
    ≡ asked env_v2 instance_one
        (accepts env_v2 start_v2 (some (server_v2 "small")))
        (some (server_v2 "small"))
      ++ []
create_or_update_server_example =
    create_or_update_server_lem env_v2 start_v2 (some (server_v2 "small"))

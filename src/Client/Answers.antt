-- ===== src/Client/Answers.antt =====
-- What the client answers once resources and a session are set.
use libreatrust.Base.{
  ==_false, ==_true, Bool-cases, Text, false, inl, inr, is_empty, none, or_else, true, ◌≡◌, ◌≢◌,
  ◌⊎◌,
}
use libreatrust.Error.{Message, err, invalid_argument, literal, ok}
use libreatrust.Types.{ClientConfig}
use libreatrust.Map.{lookup}
use libreatrust.Resource.{ResourceSnapshot}
use libreatrust.Resource.Parse.Nodes.{first_of}
use libreatrust.Client.{AtrClient, best_node_for, new_client, set_resource}

-- `AtrClient::new` fails with `InvalidArgument` for an empty host or port zero, and otherwise
-- returns a client with the given configuration and nothing else.
new_client_lem :
    (config : ClientConfig)
    → ((is_empty config.server_host ≡ true) ⊎ (config.server_port ≡ 0)
        → (m : Message) × (new_client config ≡ err (invalid_argument m)))
      × (is_empty config.server_host ≡ false
          → config.server_port ≢ 0
          → new_client config
            ≡ ok (record {
              config = config;
              session = none;
              resource = none;
              resource_bytes = none;
            }))
unfolding new_client
new_client_lem config = (
  λ h. elim (Bool-cases (is_empty config.server_host)) [
    | inl no_host ↦ (literal "server_host is empty", rw no_host)
    | inr host ↦ (
      literal "server_port is zero",
      elim h [
        | inl e ↦ absurd (cc (e, host))
        | inr e ↦ rw host (rw (==_true config.server_port 0 e))
      ],
    )
  ],
  λ host port. rw host (rw (==_false config.server_port 0 port)),
)

-- The address that the client connects to for a group: the first address of that group, or else
-- the first address of the major group, where the best nodes are the first of their groups.
best_node_for-first :
    (client : AtrClient) (snapshot : ResourceSnapshot) (group : Text)
    → ((g : Text) → lookup g snapshot.best_nodes ≡ first_of (lookup g snapshot.node_groups))
    → best_node_for (set_resource snapshot client) group
      ≡ or_else
          (first_of (lookup group snapshot.node_groups))
          (first_of (lookup snapshot.major_node_group snapshot.node_groups))
unfolding best_node_for
best_node_for-first client snapshot group h = rw (h group) (rw (h snapshot.major_node_group))

-- ===== src/Nodes/Heartbeat.antt =====
-- What a heartbeat may do to the certificate state of a node.
use talepanel.Base.{
  true, false, ◌==◌, some, List, [], ◌∷◌, find, update_where, str_eq, eq_iff, if◌then◌else◌, ◌≡◌,
  ◌⊎◌, refl, sym, ap, ◌∙◌, arith, Bool-cases, Option-cases, inl, inr, some_inj,
}
use talepanel.Store.Tables.{Uuid, Time, Node}
use talepanel.Store.Exec.{World, statement}
use talepanel.Nodes.Service.{
  Heartbeat, has_node_id, default_status, is_node_status, beat, update_node_heartbeat,
}

find-update :
    (id m : Uuid) (f : Node → Node) (ns : List Node) (n n' : Node)
    → ((x : Node) → (f x).id ≡ x.id)
    → find (has_node_id m) ns ≡ some n
    → find (has_node_id m) (update_where (has_node_id id) f ns) ≡ some n'
    → n' ≡ (if m == id then f n else n)
find-update id m f [] n n' keeps found after = absurd (ground arith)
find-update id m f (x ∷ ns) n n' keeps found after = elim (Bool-cases (x.id == id)) [
  | inl own ↦ ground (arith, own, keeps x, find-update id m f ns n n' keeps)
  | inr other ↦ ground (arith, other, find-update id m f ns n n' keeps)
]

update_node_heartbeat-nodes :
    (id : Uuid) (req : Heartbeat) (w : World)
    → ((update_node_heartbeat id req w).1.db.nodes ≡ w.db.nodes)
      ⊎ ((update_node_heartbeat id req w).1.db.nodes
          ≡ update_where (has_node_id id) (beat req w.now) w.db.nodes)
unfolding update_node_heartbeat statement
update_node_heartbeat-nodes id req w = elim (Bool-cases (w.faults w.calls)) [
  | inl lost ↦ inl (ground (arith, lost))
  | inr sent ↦ elim (Bool-cases (is_node_status (default_status req.status))) [
    | inr wrong ↦ inl (ground (arith, sent, wrong))
    | inl valid ↦ elim (Option-cases (find (has_node_id id) w.db.nodes)) [
      | inl absent ↦ inl (ground (arith, sent, valid, absent))
      | inr (node, e) ↦ inr (ground (arith, sent, valid, e))
    ]
  ]
]

beat-pins :
    (req : Heartbeat) (now : Time) (n : Node)
    → n.mtls_enabled ≡ false
    → (beat req now n).mtls_enabled ≡ true
    → (req.mtls_ready ≡ true)
      × (n.cert_serial ≡ some req.cert_serial)
      × (str_eq req.cert_serial "" ≡ false)
beat-pins req now n off on = elim (Option-cases n.cert_serial) [
  | inl unissued ↦ absurd (ground (arith, unissued))
  | inr (serial, e) ↦ ground (arith, e, eq_iff serial req.cert_serial)
]

-- A heartbeat turns mTLS on only for its own node, and only when it advertises the serial that was
-- recorded at issuance, which is not empty; it never turns it off. This holds for every row, on
-- every branch, whatever statements fail.
pub heartbeat_pins_issued :
    (id m : Uuid) (req : Heartbeat) (w : World) (n n' : Node)
    → find (has_node_id m) w.db.nodes ≡ some n
    → find (has_node_id m) (update_node_heartbeat id req w).1.db.nodes ≡ some n'
    → ((n'.mtls_enabled ≡ n.mtls_enabled)
        ⊎ ((m ≡ id)
            × (n'.mtls_enabled ≡ true)
            × (req.mtls_ready ≡ true)
            × (n.cert_serial ≡ some req.cert_serial)
            × (str_eq req.cert_serial "" ≡ false)))
heartbeat_pins_issued id m req w n n' found after = elim (update_node_heartbeat-nodes id req w) [
  | inl same ↦
      let one : some n ≡ some n' = sym found ∙ ap (find (has_node_id m)) (sym same) ∙ after in
      inl (ap (λ (x : Node). x.mtls_enabled) (sym (some_inj one)))
  | inr changed ↦
      let is : n' ≡ (if m == id then beat req w.now n else n) =
        find-update id m (beat req w.now) w.db.nodes n n' (λ x. refl) found
          (ap (find (has_node_id m)) (sym changed) ∙ after) in
      elim (Bool-cases (m == id)) [
        | inr other ↦ inl (ground (arith, is, other))
        | inl own ↦ elim (Bool-cases n.mtls_enabled) [
          | inl on ↦ inl (ground (arith, is, own, on))
          | inr off ↦ elim (Bool-cases (beat req w.now n).mtls_enabled) [
            | inr still ↦ inl (ground (arith, is, own, off, still))
            | inl turned ↦
                let (ready, serial, named) = beat-pins req w.now n off turned in
                inr (ground (arith, own), ground (arith, is, own, turned), ready, serial, named)
          ]
        ]
      ]
]

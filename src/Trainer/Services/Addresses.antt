-- ===== src/Trainer/Services/Addresses.antt =====
-- The address of the cluster.
use runai_cli.Prelude.{
  String, Bool, true, false, not, Option, none, some, List, [], ◌∷◌, find_first, str_eq, eq_iff,
  if◌then◌else◌, ◌≡◌, refl, sym, ap, ◌∙◌, inl, inr, Bool-cases, arith,
}
use runai_cli.Trainer.Services.{
  Address, Node, Known, nothing_known, read_address, read_addresses,
  get_external_ip_from_annotation_hack, internal_or, node_ip_loop, get_node_ip,
}

-- Both know the same external addresses.
abbrev SameExternal : Known → Known → Type 0
SameExternal a b = (a.external_dns ≡ b.external_dns) × (a.external_ip ≡ b.external_ip)

read_address-SameExternal :
    (a b : Known) (address : Address)
    → SameExternal a b
    → SameExternal (read_address a address) (read_address b address)
unfolding read_address
read_address-SameExternal a b address (h, k) =
    elim (Bool-cases (str_eq address.type "ExternalDNS")) [
      | inl e ↦ rw e (refl, k)
      | inr e ↦ rw e (elim (Bool-cases (str_eq address.type "ExternalIP")) [
        | inl f ↦ rw f (h, refl)
        | inr f ↦ rw f (elim (Bool-cases (str_eq address.type "InternalDNS")) [
          | inl g ↦ rw g (h, k)
          | inr g ↦ rw g (elim (Bool-cases (str_eq address.type "InternalIP")) [
            | inl i ↦ rw i (h, k)
            | inr i ↦ rw i (h, k)
          ])
        ])
      ])
    ]

read_addresses-SameExternal :
    (a b : Known) (addresses : List Address)
    → SameExternal a b
    → SameExternal (read_addresses a addresses) (read_addresses b addresses)
unfolding read_addresses
read_addresses-SameExternal a b [] h = h
read_addresses-SameExternal a b (x ∷ xs) h =
    read_addresses-SameExternal (read_address a x) (read_address b x) xs
      (read_address-SameExternal a b x h)

abbrev pub external : Known → String
external known =
    if not (str_eq known.external_dns "") then known.external_dns else known.external_ip

-- The external address of a node by itself: the DNS name, and else the IP.
abbrev pub external_of : Node → String
external_of node = external (read_addresses nothing_known node.addresses)

abbrev pub has_external : Node → Bool
has_external node = not (str_eq (external_of node) "")

-- What is known once all nodes are read.
abbrev pub all_read : Known → List Node → Known
all_read known [] = known
all_read known (node ∷ nodes) = all_read (read_addresses known node.addresses) nodes

abbrev pub best : List Node → Known → String → Option Node → String
best nodes known annotated none = internal_or annotated (all_read known nodes)
best nodes known annotated (some node) = external_of node

external_or :
    (known : Known) (rest : String)
    → (if not (str_eq known.external_dns "")
        then known.external_dns
        else if not (str_eq known.external_ip "")
        then known.external_ip
        else rest)
      ≡ (if not (str_eq (external known) "") then external known else rest)
external_or known rest = elim (Bool-cases (str_eq known.external_dns "")) [
  | inl e ↦ rw e
  | inr e ↦ rw (e, e)
]

external-eq : (a b : Known) → SameExternal a b → external a ≡ external b
external-eq a b (h, k) = rw (h, k)

node_ip_loop-cons :
    (annotated : String) (known : Known) (node : Node) (nodes : List Node)
    → SameExternal known nothing_known
    → node_ip_loop annotated known (node ∷ nodes) ≡ (
        if has_external node
        then external_of node
        else node_ip_loop annotated (read_addresses known node.addresses) nodes)
unfolding node_ip_loop
node_ip_loop-cons annotated known node nodes h =
    let read = read_addresses known node.addresses in
    let rest = node_ip_loop annotated read nodes in
    external_or read rest
    ∙ ap (λ e. if not (str_eq e "") then e else rest)
        (external-eq read (read_addresses nothing_known node.addresses)
          (read_addresses-SameExternal known nothing_known node.addresses h))

nothing_external :
    (known : Known) → str_eq (external known) "" ≡ true → SameExternal known nothing_known
nothing_external known h = elim (Bool-cases (str_eq known.external_dns "")) [
  | inl e ↦ (
    (eq_iff known.external_dns "").0 e,
    (eq_iff known.external_ip "").0
        (sym (ap (λ b. str_eq (if not b then known.external_dns else known.external_ip) "") e) ∙ h),
  )
  | inr e ↦
      cc (
        sym (ap (λ b. str_eq (if not b then known.external_dns else known.external_ip) "") e) ∙ h,
        e,
      )
]

read-SameExternal :
    (known : Known) (node : Node)
    → SameExternal known nothing_known
    → has_external node ≡ false
    → SameExternal (read_addresses known node.addresses) nothing_known
read-SameExternal known node h e =
    let s = read_addresses-SameExternal known nothing_known node.addresses h in
    let n = nothing_external (read_addresses nothing_known node.addresses) (ground (arith, e)) in
    (s.0 ∙ n.0, s.1 ∙ n.1)

node_ip_loop-best :
    (annotated : String) (known : Known) (nodes : List Node)
    → SameExternal known nothing_known
    → node_ip_loop annotated known nodes
      ≡ best nodes known annotated (find_first has_external nodes)
unfolding find_first
node_ip_loop-best annotated known [] h = unfold node_ip_loop in refl
node_ip_loop-best annotated known (node ∷ nodes) h = elim (Bool-cases (has_external node)) [
  | inl e ↦ node_ip_loop-cons annotated known node nodes h ∙ rw e
  | inr e ↦
      node_ip_loop-cons annotated known node nodes h
      ∙ rw e (
          again (find_first has_external nodes) (
            node_ip_loop-best annotated (read_addresses known node.addresses) nodes
              (read-SameExternal known node h e)))
]
  where
    again :
        (o : Option Node)
        → node_ip_loop annotated (read_addresses known node.addresses) nodes
          ≡ best nodes (read_addresses known node.addresses) annotated o
        → node_ip_loop annotated (read_addresses known node.addresses) nodes
          ≡ best (node ∷ nodes) known annotated o
    again none q = q
    again (some n) q = q

-- The address of the cluster is the external DNS name of the first node that has an external address,
-- and its external IP if it has no such name; where no node has one, it is the annotation of the first
-- node that is annotated, if it is not empty, else the internal DNS name that was read last, if there
-- is one, and else the internal IP.
pub get_node_ip-best :
    (nodes : List Node)
    → get_node_ip nodes
      ≡ best nodes nothing_known
          (get_external_ip_from_annotation_hack nodes)
          (find_first has_external nodes)
unfolding get_node_ip
get_node_ip-best nodes =
    node_ip_loop-best (get_external_ip_from_annotation_hack nodes) nothing_known nodes (refl, refl)

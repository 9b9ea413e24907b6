-- ===== src/Servers/Access/Laws.antt =====
-- What `find_accessible_or_throw` promises its callers.
use elysia_panel.Prelude.{
  true, ◌≡◌, some, List, [], ◌∷◌, ◌⊎◌, inl, inr, ◌==◌, ◌&&◌, sym, includes, any, find, find_passes,
  select, is_for, arith, Bool-cases,
}
use elysia_panel.World.Schema.{RowId, Server, Node, ServerTemplate, ServerSubUser}
use elysia_panel.World.State.{World}
use elysia_panel.World.Action.{ok, err, forbidden}
use elysia_panel.Identity.{AuthenticatedUser}
use elysia_panel.Servers.Access.{ServerView, may_access, find_accessible_or_throw}

-- The first row that two conditions hold of, out of a table where one of the selected rows passes.
found_in_select :
    (id user_id : RowId) (sus : List ServerSubUser)
    → any (λ su. su.user_id == user_id) (select (λ su. su.server_id == id) sus) ≡ true
    → (su : ServerSubUser) × (find (λ x. (x.server_id == id) && (x.user_id == user_id)) sus
        ≡ some su)
found_in_select id user_id [] h = absurd (cc)
found_in_select id user_id (x ∷ xs) h = elim (Bool-cases (x.server_id == id)) [
  | inl here ↦ elim (Bool-cases (x.user_id == user_id)) [
    | inl match ↦ (x, ground (arith, here, match))
    | inr other ↦
        let (su, e) = found_in_select id user_id xs (ground (arith, here, other)) in
        (su, ground (arith, here, other))
  ]
  | inr elsewhere ↦
      let (su, e) = found_in_select id user_id xs (ground (arith, elsewhere)) in
      (su, ground (arith, elsewhere))
]

any_in_select :
    (id user_id : RowId) (sus : List ServerSubUser) (su : ServerSubUser)
    → find (λ x. (x.server_id == id) && (x.user_id == user_id)) sus ≡ some su
    → any (λ x. x.user_id == user_id) (select (λ x. x.server_id == id) sus) ≡ true
any_in_select id user_id [] su h = absurd (cc)
any_in_select id user_id (x ∷ xs) su h = ground (arith, any_in_select id user_id xs su)

-- Who may see a stored server: whoever holds the wildcard or the permission to read any server, the
-- owner, and each user for whom a row of the table of sub-users names the server.
abbrev pub IsAllowed : AuthenticatedUser → Server → World → Type 0
IsAllowed user server w =
    (includes user.permissions "*" ≡ true)
    ⊎ (includes user.permissions "servers.read.any" ≡ true)
    ⊎ (server.owner_id ≡ user.id)
    ⊎ ((su : ServerSubUser) × (find (λ x. (x.server_id == server.id) && (x.user_id == user.id))
            w.sub_users
          ≡ some su))

module _ (user : AuthenticatedUser) (server : Server) (w : World) where
  abbrev its_sub_users : List ServerSubUser
  its_sub_users = select (λ su. su.server_id == server.id) w.sub_users

  may_access-IsAllowed : may_access user server its_sub_users ≡ true → IsAllowed user server w
  unfolding may_access
  may_access-IsAllowed h = elim (Bool-cases (includes user.permissions "*")) [
    | inl star ↦ inl star
    | inr plain ↦ elim (Bool-cases (includes user.permissions "servers.read.any")) [
      | inl reads ↦ inr (inl reads)
      | inr blind ↦ elim (Bool-cases (server.owner_id == user.id)) [
        | inl own ↦ inr (inr (inl (ground arith)))
        | inr other ↦ inr (inr (inr (found_in_select server.id user.id w.sub_users (ground arith))))
      ]
    ]
  ]

  IsAllowed-may_access : IsAllowed user server w → may_access user server its_sub_users ≡ true
  unfolding may_access
  IsAllowed-may_access (inl star) = ground arith
  IsAllowed-may_access (inr (inl reads)) = ground arith
  IsAllowed-may_access (inr (inr (inl own))) = ground arith
  IsAllowed-may_access (inr (inr (inr (su, e)))) =
      ground (arith, any_in_select server.id user.id w.sub_users su e)

module _ (id : RowId) (user : AuthenticatedUser) (w : World) where
  -- Whatever comes back, nothing is written.
  pub find_accessible-state : (find_accessible_or_throw id user w).1 ≡ w
  unfolding find_accessible_or_throw
  find_accessible-state = ground arith

  -- What is handed out is the stored server, with its node and its sub-users as they are stored.
  pub find_accessible-ok :
      (v : ServerView)
      → (find_accessible_or_throw id user w).0 ≡ ok v
      → (find (λ s. s.id == id) w.servers ≡ some v.server)
        × (find (λ n. n.id == v.node_id) w.nodes ≡ some v.node)
        × (v.sub_users ≡ select (λ su. su.server_id == id) w.sub_users)
  unfolding find_accessible_or_throw
  find_accessible-ok v h = ground arith

  -- A stored server whose node and template are stored is handed out, with both and with its
  -- allocations and sub-users, to each user who is allowed to see it. Everybody else is refused
  -- with a 403. Nothing is written in either case.
  pub find_accessible_decides :
      (server : Server) (node : Node) (template : ServerTemplate)
      → find (λ s. s.id == id) w.servers ≡ some server
      → find (λ n. n.id == server.node_id) w.nodes ≡ some node
      → find (λ t. t.id == server.template_id) w.templates ≡ some template
      → (IsAllowed user server w
          → find_accessible_or_throw id user w ≡ (
            ok (record {
              server = server;
              node = node;
              template = template;
              allocations = select (λ a. is_for server.id a.server_id) w.allocations;
              sub_users = select (λ su. su.server_id == id) w.sub_users;
            }),
            w,
          ))
        × (¬ IsAllowed user server w
            → find_accessible_or_throw id user w
              ≡ (err (forbidden "Vous n'avez pas accès à ce serveur"), w))
  unfolding find_accessible_or_throw
  find_accessible_decides server node template found hosted made =
      let same_id : server.id ≡ id =
        ground (arith, find_passes (λ s. s.id == id) w.servers server) in
      (
        λ allowed.
            let passes : may_access user server (select (λ su. su.server_id == id) w.sub_users)
                ≡ true =
              rw (sym same_id) (IsAllowed-may_access user server w allowed) in
            ground (arith, found, hosted, made, passes),
        λ kept_out.
            elim (Bool-cases
              (may_access user server (select (λ su. su.server_id == id) w.sub_users))) [
                | inl passes ↦
                    absurd (kept_out (may_access-IsAllowed user server w (rw same_id passes)))
                | inr refused ↦ ground (arith, found, hosted, made, refused)
              ],
      )

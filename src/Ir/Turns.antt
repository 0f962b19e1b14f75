-- ===== src/Ir/Turns.antt =====
-- `push_message` of src/domain/ir/mod.rs: adding blocks to a conversation.
use local_proxy.Base.{
  Bool, true, false, ◌&&◌, List, [], ◌∷◌, ◌++◌, ◌≡◌, refl, ap, sym, ◌∙◌, if◌then◌else◌, all,
  Bool-cases, inl, inr, append_assoc, append-nil, arith,
}
use local_proxy.Ir.Types.{Block, Message, Part, Role}

abbrev pub same_role : Role → Role → Bool
same_role Role.user Role.user = true
same_role Role.assistant Role.assistant = true
same_role Role.user Role.assistant = false
same_role Role.assistant Role.user = false

abbrev pub is_tool_part : Part → Bool
is_tool_part (Part.tool_call call) = true
is_tool_part (Part.tool_result result) = true
is_tool_part (Part.text t) = false
is_tool_part (Part.image i) = false
is_tool_part (Part.reasoning t s) = false

abbrev pub is_tool_block : Block → Bool
is_tool_block b = is_tool_part b.part

abbrev pub turn : Role → List Block → Message
turn role blocks = record { role = role; content = blocks }

unfoldable pub onto_last : List Message → Role → List Block → List Message
onto_last [] role blocks = turn role blocks ∷ []
onto_last (m ∷ []) role blocks =
    if same_role m.role role && all is_tool_block blocks
    then record m { content = m.content ++ blocks } ∷ []
    else m ∷ turn role blocks ∷ []
onto_last (m ∷ n ∷ ms) role blocks = m ∷ onto_last (n ∷ ms) role blocks

unfoldable pub push_message : List Message → Role → List Block → List Message
push_message ms role [] = ms
push_message ms role (b ∷ bs) = onto_last ms role (b ∷ bs)

-- The blocks of a conversation, each with the role of its turn.
abbrev pub by_role : Role → List Block → List (Role × Block)
by_role role [] = []
by_role role (b ∷ bs) = (role, b) ∷ by_role role bs

abbrev pub spoken : List Message → List (Role × Block)
spoken [] = []
spoken (m ∷ ms) = by_role m.role m.content ++ spoken ms

by_role-append :
    (role : Role) (xs ys : List Block)
    → by_role role (xs ++ ys) ≡ by_role role xs ++ by_role role ys
by_role-append role [] ys = refl
by_role-append role (x ∷ xs) ys = rw (by_role-append role xs ys) refl

same_role-eq : (a b : Role) → same_role a b ≡ true → a ≡ b
same_role-eq Role.user Role.user h = refl
same_role-eq Role.assistant Role.assistant h = refl
same_role-eq Role.user Role.assistant h = ground arith
same_role-eq Role.assistant Role.user h = ground arith

same_turn :
    (m : Message) (role : Role) (blocks : List Block)
    → same_role m.role role ≡ true
    → by_role m.role (m.content ++ blocks) ++ [] ≡ by_role m.role m.content ++ by_role role blocks
same_turn m role blocks h =
    append-nil (by_role m.role (m.content ++ blocks))
    ∙ by_role-append m.role m.content blocks
    ∙ ap (λ r. by_role m.role m.content ++ by_role r blocks) (same_role-eq m.role role h)

onto_last-spoken :
    (ms : List Message) (role : Role) (blocks : List Block)
    → spoken (onto_last ms role blocks) ≡ spoken ms ++ by_role role blocks
unfolding onto_last
onto_last-spoken [] role blocks = append-nil (by_role role blocks)
onto_last-spoken (m ∷ []) role blocks =
    elim (Bool-cases (same_role m.role role && all is_tool_block blocks)) [
      | inl e ↦
          rw (e, append-nil (by_role m.role m.content))
            (same_turn m role blocks (ground (arith, e)))
      | inr e ↦ rw (e, append-nil (by_role role blocks), append-nil (by_role m.role m.content)) refl
    ]
onto_last-spoken (m ∷ n ∷ ms) role blocks =
    rw (onto_last-spoken (n ∷ ms) role blocks)
      (sym (append_assoc (by_role m.role m.content) (spoken (n ∷ ms)) (by_role role blocks)))

-- However turns are grouped, pushing blocks adds exactly them at the end, under their role.
pub push_message-spoken :
    (ms : List Message) (role : Role) (blocks : List Block)
    → spoken (push_message ms role blocks) ≡ spoken ms ++ by_role role blocks
unfolding push_message
push_message-spoken ms role [] = sym (append-nil (spoken ms))
push_message-spoken ms role (b ∷ bs) = onto_last-spoken ms role (b ∷ bs)

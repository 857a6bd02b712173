-- ===== src/Role.antt =====
-- The two sides of a channel, `Role` in src/modes/ordered.rs.
pub data Role : Type 0 where
  initiator responder : Role

-- The side at the other end.
abbrev pub peer : Role → Role
peer initiator = responder
peer responder = initiator

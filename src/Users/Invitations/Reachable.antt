-- ===== src/Users/Invitations/Reachable.antt =====
-- An invitation leads to an account that its holder can enter.

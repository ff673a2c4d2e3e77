-- ===== src/Embed.antt =====
-- Tools/ggrep/src/embed: what surrounds the models, which are parameters.
pub mod Limiter

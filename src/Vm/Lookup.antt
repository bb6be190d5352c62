-- ===== src/Vm/Lookup.antt =====
-- findSymbol against the lists of symbols that it walks: it ends, and the innermost symbol wins.
pub mod Chains
pub mod Find
pub mod Shadow

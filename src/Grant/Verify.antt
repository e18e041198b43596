-- ===== src/Grant/Verify.antt =====
-- `verifyGrantChain` of grant-chain.ts.
--
-- The calls that the source makes recursively are calls of an argument `rec` here, and `verify_one`
-- ties the knot by recursion on the depth of the call stack: `none` is a stack that overflows, which
-- in the source throws out of the whole verifier. The source's two caches of verdicts are left out:
-- they are keyed by sort key, and a key that two rows share is rejected at once.
mod Terms
mod Steps
mod Knot
unfoldable pub use Terms.*
unfoldable pub use Steps.*
unfoldable pub use Knot.*

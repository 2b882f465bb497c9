-- ===== src/Lib.antt =====
-- The proof-of-custody protocols of POC/: the arithmetic and bit protocols on shared values
-- (POC/OnlineOp.hpp), the custody bit of a message that is computed with them (POC/poc.hpp), and the
-- key and the signatures that several parties have together (POC/vss.cpp, POC/bls.cpp).
--
-- Parts, and how they interact
--   Engine            what POC/ asks of the multi-party engine (the types T::clear and T, and the
--                     calls of T::Protocol, T::LivePrep, T::MAC_Check and T::Input), as an interface
--                     with the documented meaning of each call. A share stands for all parties'
--                     parts; `opened` is its value. Runs are honest: nobody deviates or aborts.
--   Engine.Program    protocol code as functions of the engine's state that return or throw, and
--                     the two judgements on them: Yields (from every state the program returns, and
--                     the result satisfies the predicate) and Fails (it throws this exception).
--   OnlineOp.*        POC/OnlineOp.hpp. Linear: add, sub, mul and their plain, in-place and vector
--                     forms, power, reveal, get_inputs. Products: sqr, inv, div. Complexes: the
--                     same on POC/Complex.h. Bits: XOR, OR, AND. Folds: KXOR, KOR, prefix_OR.
--                     Compare: lt. Adder: carry_sum, add_bit. Convert: decompose, B2A, pre_rand,
--                     A2B. Hash: uhf, legendre, legendre_prf. An overload on vectors has the
--                     suffix _vec, one on complex numbers the prefix complex_. An output argument
--                     is the result; an argument that is changed in place is passed and returned.
--                     Capitals become lower case (kxor, prefix_or, a2b), and XOR, OR and AND of
--                     two shares are xor_shares, or_shares and and_shares.
--   Poc               POC/poc.hpp: poc_compute_custody_bit in one step, its offline and online
--                     phases, and these phases for two primes, without the prefix poc_compute_.
--   Poc.KeyExchange   POC/poc.hpp between the two primes (shared_rand_bits_phase_one and _phase_two,
--                     decompose_and_reveal, xor_and_combine), called as in POC/RunPoc.hpp. It runs
--                     over two engines, one for each field, where the second phase gets what the
--                     first returns; how a program passes it on is not part of it.
--   Poc.EphemKey      poc_setup, poc_compute_ephem_key, and their calls in POC/RunPoc.hpp.
--   Poc.Stages        Source/poc_main.cpp: the stages after the setup, one after the other over the
--                     one field of that program, up to the custody bit.
--   Group             POC/Group.hpp: the sums of two points in affine, Jacobian and projective
--                     coordinates, once over an interface of coordinates (Group.Interface). G1 fills
--                     it with shares, G2 with complex shares; the operations of G2Op are named g2_.
--   Mcl               what is called of the mcl library, as an interface: the field of the order of
--                     the groups, G1, G2, the pairing, hashing to G2 and the random generator.
--   Lagrange          Math/Lagrange.cpp: get_lagrange_coeff, set_share, recover_share.
--   Vss               POC/vss.h and vss.cpp: the class VSS, recover_share, lagrange_coeff.
--   Bls               POC/bls.h and bls.cpp: keygen, sign, verify, sign_scale. Bls.Keygen:
--                     dstb_keygen of one party, whose network is a function from what it sends to
--                     what it receives. Bls.Keygen.Order: the communications of all
--                     parties in any interleaving. Bls.Sign: dstb_sign, as the program of all
--                     parties.
--   Fallible          code without an engine that returns or throws.
--   Bitwise           the independent descriptions of the bit protocols, on lists of Booleans.
--   Ring              commutative rings, a solver for their equations, groups on which a ring acts,
--                     polynomials, and Lagrange's formula for the value at 0.
--   Examples          the interfaces filled by two parties over the field of three elements.
--
-- The laws of each part are in its child modules. Numbers are natural numbers; an index past the end
-- of a vector is the exception out_of_range, and a subtraction that would wrap is guarded.
--
-- Fuel: the recursion of KXOR, KOR and prefix_OR is on the length of the vector, and depth k is
-- enough for k bits; callers pass k. The loop `while (1)` of pre_rand takes a bound on its rounds,
-- since it ends only if the preprocessing gives bits of a number below the order of the field: the
-- theorems on it, on A2B and on the key exchange ask that one of these rounds is accepted.
--
-- An int of the source that comes from a number of parties is taken to be below 2^31, and below the
-- order of the field of mcl (Mcl.Fits).
--
-- Not modelled: the engine itself (Protocols/, Processor/, OT/ and the other directories of MP-SPDZ),
-- GMP's Legendre symbol, mcl, the serialization of its points, Commit and Open of Tools/Commit.h and
-- the network, which are parameters, timers, printing, test drivers, and what else the programs of
-- Source/ do. Source/poc_main2fork.cpp runs the two phases in two processes, which pass local_bits and
-- reveal_bits on as a string without separators, and reads reveal_bits from index 10 on: the bits do
-- not arrive there, and no theorem is about this program.
pub mod Prelude
pub mod Ring
pub mod Engine
pub mod Bitwise
pub mod OnlineOp
pub mod Poc
pub mod Group
pub mod Examples
pub mod Mcl
pub mod Lagrange
pub mod Fallible
pub mod Vss
pub mod Bls

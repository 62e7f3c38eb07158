-- ===== src/Opcodes.antt =====
-- The constants of the crate `rust_asm`, module `opcodes`, that the program names. The crate is not
-- part of the repository, so that the other modules take the constants as a parameter.
use ferro_jtype.Prelude.{ℕ, ◌≡◌, Bool, ◌&&◌, leb}

pub record Opcodes : Type 0 where
  pub nop : ℕ
  pub aconst_null : ℕ
  pub iconst_m1 : ℕ
  pub iconst_0 : ℕ
  pub iconst_5 : ℕ
  pub lconst_0 : ℕ
  pub lconst_1 : ℕ
  pub fconst_0 : ℕ
  pub fconst_2 : ℕ
  pub dconst_0 : ℕ
  pub dconst_1 : ℕ
  pub bipush : ℕ
  pub sipush : ℕ
  pub ldc : ℕ
  pub ldc2_w : ℕ
  pub iload : ℕ
  pub lload : ℕ
  pub fload : ℕ
  pub dload : ℕ
  pub aload : ℕ
  pub iload_0 : ℕ
  pub iload_3 : ℕ
  pub lload_0 : ℕ
  pub lload_3 : ℕ
  pub fload_0 : ℕ
  pub fload_3 : ℕ
  pub dload_0 : ℕ
  pub dload_3 : ℕ
  pub aload_0 : ℕ
  pub aload_3 : ℕ
  pub iaload : ℕ
  pub laload : ℕ
  pub faload : ℕ
  pub daload : ℕ
  pub aaload : ℕ
  pub baload : ℕ
  pub caload : ℕ
  pub saload : ℕ
  pub istore : ℕ
  pub lstore : ℕ
  pub fstore : ℕ
  pub dstore : ℕ
  pub astore : ℕ
  pub istore_0 : ℕ
  pub istore_3 : ℕ
  pub lstore_0 : ℕ
  pub lstore_3 : ℕ
  pub fstore_0 : ℕ
  pub fstore_3 : ℕ
  pub dstore_0 : ℕ
  pub dstore_3 : ℕ
  pub astore_0 : ℕ
  pub astore_3 : ℕ
  pub iastore : ℕ
  pub sastore : ℕ
  pub pop : ℕ
  pub pop2 : ℕ
  pub dup : ℕ
  pub dup_x1 : ℕ
  pub dup_x2 : ℕ
  pub dup2 : ℕ
  pub dup2_x1 : ℕ
  pub dup2_x2 : ℕ
  pub swap : ℕ
  pub iadd : ℕ
  pub ladd : ℕ
  pub fadd : ℕ
  pub dadd : ℕ
  pub isub : ℕ
  pub lsub : ℕ
  pub fsub : ℕ
  pub dsub : ℕ
  pub imul : ℕ
  pub lmul : ℕ
  pub fmul : ℕ
  pub dmul : ℕ
  pub idiv : ℕ
  pub ldiv : ℕ
  pub fdiv : ℕ
  pub ddiv : ℕ
  pub irem : ℕ
  pub lrem : ℕ
  pub frem : ℕ
  pub drem : ℕ
  pub ineg : ℕ
  pub lneg : ℕ
  pub fneg : ℕ
  pub dneg : ℕ
  pub ishl : ℕ
  pub lshl : ℕ
  pub ishr : ℕ
  pub lshr : ℕ
  pub iushr : ℕ
  pub lushr : ℕ
  pub iand : ℕ
  pub land : ℕ
  pub ior : ℕ
  pub lor : ℕ
  pub ixor : ℕ
  pub lxor : ℕ
  pub iinc : ℕ
  pub i2l : ℕ
  pub i2f : ℕ
  pub i2d : ℕ
  pub l2i : ℕ
  pub l2f : ℕ
  pub l2d : ℕ
  pub f2i : ℕ
  pub f2l : ℕ
  pub f2d : ℕ
  pub d2i : ℕ
  pub d2l : ℕ
  pub d2f : ℕ
  pub i2b : ℕ
  pub i2c : ℕ
  pub i2s : ℕ
  pub lcmp : ℕ
  pub dcmpg : ℕ
  pub ifeq : ℕ
  pub ifne : ℕ
  pub ifle : ℕ
  pub if_icmpeq : ℕ
  pub if_acmpne : ℕ
  pub goto : ℕ
  pub jsr : ℕ
  pub ret : ℕ
  pub tableswitch : ℕ
  pub lookupswitch : ℕ
  pub ireturn : ℕ
  pub lreturn : ℕ
  pub freturn : ℕ
  pub dreturn : ℕ
  pub areturn : ℕ
  pub return : ℕ
  pub getstatic : ℕ
  pub putstatic : ℕ
  pub getfield : ℕ
  pub putfield : ℕ
  pub invokevirtual : ℕ
  pub invokespecial : ℕ
  pub invokestatic : ℕ
  pub invokeinterface : ℕ
  pub invokedynamic : ℕ
  pub new : ℕ
  pub newarray : ℕ
  pub anewarray : ℕ
  pub arraylength : ℕ
  pub athrow : ℕ
  pub checkcast : ℕ
  pub instanceof : ℕ
  pub monitorenter : ℕ
  pub monitorexit : ℕ
  pub multianewarray : ℕ
  pub ifnull : ℕ
  pub ifnonnull : ℕ
  pub goto_w : ℕ
  pub jsr_w : ℕ
  pub breakpoint : ℕ
  pub impdep1 : ℕ
  pub impdep2 : ℕ

-- The numbers of the Java Virtual Machine Specification.
abbrev pub jvm : Opcodes
jvm = record {
  nop = 0;
  aconst_null = 1;
  iconst_m1 = 2;
  iconst_0 = 3;
  iconst_5 = 8;
  lconst_0 = 9;
  lconst_1 = 10;
  fconst_0 = 11;
  fconst_2 = 13;
  dconst_0 = 14;
  dconst_1 = 15;
  bipush = 16;
  sipush = 17;
  ldc = 18;
  ldc2_w = 20;
  iload = 21;
  lload = 22;
  fload = 23;
  dload = 24;
  aload = 25;
  iload_0 = 26;
  iload_3 = 29;
  lload_0 = 30;
  lload_3 = 33;
  fload_0 = 34;
  fload_3 = 37;
  dload_0 = 38;
  dload_3 = 41;
  aload_0 = 42;
  aload_3 = 45;
  iaload = 46;
  laload = 47;
  faload = 48;
  daload = 49;
  aaload = 50;
  baload = 51;
  caload = 52;
  saload = 53;
  istore = 54;
  lstore = 55;
  fstore = 56;
  dstore = 57;
  astore = 58;
  istore_0 = 59;
  istore_3 = 62;
  lstore_0 = 63;
  lstore_3 = 66;
  fstore_0 = 67;
  fstore_3 = 70;
  dstore_0 = 71;
  dstore_3 = 74;
  astore_0 = 75;
  astore_3 = 78;
  iastore = 79;
  sastore = 86;
  pop = 87;
  pop2 = 88;
  dup = 89;
  dup_x1 = 90;
  dup_x2 = 91;
  dup2 = 92;
  dup2_x1 = 93;
  dup2_x2 = 94;
  swap = 95;
  iadd = 96;
  ladd = 97;
  fadd = 98;
  dadd = 99;
  isub = 100;
  lsub = 101;
  fsub = 102;
  dsub = 103;
  imul = 104;
  lmul = 105;
  fmul = 106;
  dmul = 107;
  idiv = 108;
  ldiv = 109;
  fdiv = 110;
  ddiv = 111;
  irem = 112;
  lrem = 113;
  frem = 114;
  drem = 115;
  ineg = 116;
  lneg = 117;
  fneg = 118;
  dneg = 119;
  ishl = 120;
  lshl = 121;
  ishr = 122;
  lshr = 123;
  iushr = 124;
  lushr = 125;
  iand = 126;
  land = 127;
  ior = 128;
  lor = 129;
  ixor = 130;
  lxor = 131;
  iinc = 132;
  i2l = 133;
  i2f = 134;
  i2d = 135;
  l2i = 136;
  l2f = 137;
  l2d = 138;
  f2i = 139;
  f2l = 140;
  f2d = 141;
  d2i = 142;
  d2l = 143;
  d2f = 144;
  i2b = 145;
  i2c = 146;
  i2s = 147;
  lcmp = 148;
  dcmpg = 152;
  ifeq = 153;
  ifne = 154;
  ifle = 158;
  if_icmpeq = 159;
  if_acmpne = 166;
  goto = 167;
  jsr = 168;
  ret = 169;
  tableswitch = 170;
  lookupswitch = 171;
  ireturn = 172;
  lreturn = 173;
  freturn = 174;
  dreturn = 175;
  areturn = 176;
  return = 177;
  getstatic = 178;
  putstatic = 179;
  getfield = 180;
  putfield = 181;
  invokevirtual = 182;
  invokespecial = 183;
  invokestatic = 184;
  invokeinterface = 185;
  invokedynamic = 186;
  new = 187;
  newarray = 188;
  anewarray = 189;
  arraylength = 190;
  athrow = 191;
  checkcast = 192;
  instanceof = 193;
  monitorenter = 194;
  monitorexit = 195;
  multianewarray = 197;
  ifnull = 198;
  ifnonnull = 199;
  goto_w = 200;
  jsr_w = 201;
  breakpoint = 202;
  impdep1 = 254;
  impdep2 = 255;
}

-- The documented behaviour of the crate: its constants are the numbers of that specification.
abbrev pub IsJvm : Opcodes → Type 0
IsJvm o = o ≡ jvm

-- A pattern `first..=last`.
abbrev pub is_within : ℕ → ℕ → ℕ → Bool
is_within first last opcode = leb first opcode && leb opcode last
